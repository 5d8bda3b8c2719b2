-- ===== src/Ds/UnorderedLazyList.antt =====
-- ds/LazyList/UnorderedLazyList.h, run by one thread at a time. Its nodes, constructors,
-- destructor, validate, equal, traversal, setMaxKey, remove, contains and add have the text of
-- ds/LazyList/LazyList.h and are the same functions here; its get is its own.
use libeva.Base.{
  ◌∙◌, subst, ap, inl, inr, Bool-cases, ℕ, zero, suc, ◌≡◌, refl, Bool, false, not, ◌&&◌, Option,
  none, some, List, [], ◌∷◌, if◌then◌else◌,
}
use libeva.Ds.LazyList.{◌>>=◌, LazyList, Node}
use libeva.Ds.LazyList
use libeva.Ds.LazyList.Shape.{Holds}

module _ {ℓ} {T : Type ℓ} where
  -- The default constructor leaves the two sentinels apart.
  pub init_empty : T → LazyList T
  init_empty default = record {
    heap =
        LazyList.store
          (LazyList.store (λ a. none) 0
            (some (record { entry = default; next = none; marked = false })))
          1 (some (record { entry = default; next = none; marked = false }));
    head = 0;
    tail = 1;
    fresh = 2;
  }

  pub init : T → T → LazyList T
  init default max_val = LazyList.init default max_val

  pub destroy : ℕ → LazyList T → Option (ℕ → Option (Node T))
  destroy fuel l = LazyList.destroy fuel l

  pub set_max_key : LazyList T → T → Option (LazyList T)
  set_max_key l key = LazyList.set_max_key l key

  pub validate : LazyList T → ℕ → ℕ → Option Bool
  validate l pred curr = LazyList.validate l pred curr

  pub traversal : ℕ → LazyList T → Option (List T)
  traversal fuel l = LazyList.traversal fuel l

-- What a call of `get` has come to after a number of rounds of its loop.
pub data Got {ℓ} (T : Type ℓ) : Type ℓ where
  still_running : Got T
  returned : T → Got T

module _ {ℓ} {T : Type ℓ} (cmp : T → T → Bool) where
  pub equal : T → T → Bool
  equal lhs rhs = LazyList.equal cmp lhs rhs

  pub remove : ℕ → LazyList T → T → Option (LazyList T × Bool)
  remove fuel l key = LazyList.remove cmp fuel l key

  pub contains : ℕ → LazyList T → T → Option Bool
  contains fuel l key = LazyList.contains cmp fuel l key

  pub add : ℕ → LazyList T → T → Option (LazyList T × Bool)
  add fuel l key = LazyList.add cmp fuel l key

  -- The loop of `get`, which does not move `curr`, stopped after a number of rounds: whether it would
  -- go on. A read of no node is `none`.
  spin : ℕ → (ℕ → Option (Node T)) → T → ℕ → Option Bool
  spin zero h key curr = do c ← h curr; some (cmp c.entry key)
  spin (suc rounds) h key curr =
      let again = spin rounds h key curr in
      (do c ← h curr; if cmp c.entry key then again else some false)

  -- `get`, stopped after a number of rounds of its loop; `none` is a fault.
  pub get : ℕ → T → LazyList T → T → Option (Got T)
  unfolding spin equal
  get rounds default l key = do
    h ← l.heap l.head
    curr ← h.next
    on ← spin rounds l.heap key curr
    c ← l.heap curr
    some (
        if on
        then still_running
        else returned (if c.marked && not (equal c.entry key) then default else c.entry))

  spins :
      (rounds : ℕ) (h : ℕ → Option (Node T)) (key : T) (curr : ℕ) (c : Node T)
      → h curr ≡ some c
      → spin rounds h key curr ≡ some (cmp c.entry key)
  unfolding spin
  spins zero h key curr c e = rw e refl
  spins (suc rounds) h key curr c e = elim (Bool-cases (cmp c.entry key)) [
    | inl below ↦ rw (e, below) (spins rounds h key curr c e ∙ ap some below)
    | inr found ↦ rw (e, found) refl
  ]

  get_first :
      (rounds : ℕ) (default : T) (l : LazyList T) (key x : T) (a : ℕ) (after : Option ℕ)
      → l.heap l.head ≡ some (record { entry = default; next = some a; marked = false })
      → l.heap a ≡ some (record { entry = x; next = after; marked = false })
      → get rounds default l key ≡ some (if cmp x key then still_running else returned x)
  unfolding get
  get_first rounds default l key x a after e at = rw (e, spins rounds l.heap key a _ at, at) refl

module _ {ℓ} {T : Type ℓ} {cmp : T → T → Bool} {default max_val : T} where
  -- get of a nonempty list faults nowhere and looks at its first entry only: where that is below
  -- the key, its loop is still running after any number of rounds, and otherwise it returns that
  -- entry, whether it is equal to the key or not.
  pub get_lem :
      (rounds : ℕ) (l : LazyList T) (x : T) (xs : List T) (key : T)
      → Holds cmp default max_val l (x ∷ xs)
      → get cmp rounds default l key ≡ some (if cmp x key then still_running else returned x)
  get_lem rounds l x xs key ([], w, e) = cc
  get_lem rounds l x xs key ((a, y) ∷ r, w, e) =
      subst
        (λ z. get cmp rounds default l key ≡ some (if cmp z key then still_running else returned z))
        (ap (λ ys. head_or ys y) e) (get_first cmp rounds default l key y a _ w.head_cell w.chain.0)
    where
      head_or : List T → T → T
      head_or [] d = d
      head_or (z ∷ zs) d = z
