-- ===== src/Ds/HashSet.antt =====
-- ds/HashSet/HashSet.h: a fixed array of lists, where an entry belongs to the list at its hash
-- modulo the number of lists. That number, the order and the hash function are the template's
-- arguments. `buckets_.at` throws
-- past the end, which is `none` here; a call of a list is given its `fresh` as fuel, which is more
-- than the nodes it can hold.
pub mod Laws
pub mod Calls
use libeva.Base.{ℕ, ◌+◌, ◌%◌, ◌^◌, Bool, List, [], ◌∷◌, Option, replicate, some}
use libeva.Ds.LazyList.{LazyList, ◌>>=◌}
use libeva.Ds.LazyList
use libeva.Ds.KeySet.{update_at, read_at}

pub record HashSet {ℓ} (T : Type ℓ) : Type ℓ where
  pub buckets : List (LazyList T)

module _ {ℓ} {T : Type ℓ} where
  -- The constructor from the largest key, `len` lists.
  unfoldable pub init : ℕ → T → T → HashSet T
  init len default max_key = record { buckets = replicate len (LazyList.init default max_key) }

  pub set_max_keys : List (LazyList T) → T → Option (List (LazyList T))
  set_max_keys [] max_key = some []
  set_max_keys (l ∷ ls) max_key = do
    l' ← LazyList.set_max_key l max_key
    rest ← set_max_keys ls max_key
    some (l' ∷ rest)

  pub set_max_key : HashSet T → T → Option (HashSet T)
  unfolding set_max_keys
  set_max_key s max_key = do ls ← set_max_keys s.buckets max_key; some (record { buckets = ls })

module _ {ℓ} {T : Type ℓ} (cmp : T → T → Bool) (hash : T → ℕ) (len : ℕ) where
  pub remove : HashSet T → T → Option (HashSet T × Bool)
  remove s key = do
    r ← update_at s.buckets (hash key % len) (λ l. LazyList.remove cmp l.fresh l key)
    some (record { buckets = r.0 }, r.1)

  pub add : HashSet T → T → Option (HashSet T × Bool)
  add s key = do
    r ← update_at s.buckets (hash key % len) (λ l. LazyList.add cmp l.fresh l key)
    some (record { buckets = r.0 }, r.1)

  -- The index is an `unsigned`, of 32 bits.
  pub contains : HashSet T → T → Option Bool
  contains s key =
      read_at s.buckets (hash key % len % 2 ^ 32) (λ l. LazyList.contains cmp (l.fresh + 1) l key)

  pub get : T → HashSet T → T → Option T
  get default s key =
      read_at s.buckets (hash key % len) (λ l. LazyList.get cmp l.fresh default l key)
