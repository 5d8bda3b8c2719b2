-- ===== src/Memcached/Store.antt =====
-- minimemcached/MiniMemcached.h and MiniMemcached.cc: the entries of the server, in 1,700 hash sets of
-- 2,010 lists each. The lists hold `shared_ptr`s: an entry or null, where null is what `T()` makes.
-- An entry is not changed once it is stored, so a pointer stands for what it points to. No call that
-- the server makes compares a null pointer or asks for its hash; the order and the hash have a value
-- there that is not used.
pub mod Order
pub mod Laws
use libeva.Base.{
  ℕ, ◌%◌, Bool, true, false, Option, none, some, List, [], ◌∷◌, ltb, if◌then◌else◌, replicate,
}
use libeva.Ds.LazyList.{◌>>=◌}
use libeva.Ds.KeySet.{update_at, read_at}
use libeva.Ds.HashSet.{HashSet}
use libeva.Ds.HashSet
use libeva.Memcached.Entry.{Entry, key}
use libeva.Memcached.Entry

pub record Store : Type 0 where
  pub shards : List (HashSet (Option Entry))

abbrev pub num_shards : ℕ
num_shards = 1700

-- The number of lists of a shard.
abbrev pub num_lists : ℕ
num_lists = 2010

-- `<` on string_views compares their bytes as unsigned.
unfoldable pub lt_bytes : List ℕ → List ℕ → Bool
lt_bytes xs [] = false
lt_bytes [] (y ∷ ys) = true
lt_bytes (x ∷ xs) (y ∷ ys) = if ltb x y then true else if ltb y x then false else lt_bytes xs ys

-- `EntryPtrCmp`
unfoldable pub cmp : Option Entry → Option Entry → Bool
cmp l none = false
cmp none (some r) = true
cmp (some l) (some r) = lt_bytes (key l) (key r)

-- `EntryPtrHasher`
abbrev pub hash : Option Entry → ℕ
hash none = 0
hash (some e) = e.hash

-- The constructor: each shard has the key of a hundred 'z' for its greatest.
pub init : Option Store
init = do
  greatest_key ← Entry.init (replicate 100 b'z') 256
  some (record { shards = replicate num_shards (HashSet.init num_lists none (some greatest_key)) })

pub set : Store → Entry → Option Store
set s e = do
  let idx = e.hash % num_shards
  r ← update_at s.shards idx (λ shard. HashSet.add cmp hash num_lists shard (some e))
  some (record { shards = r.0 })

pub get : Store → Entry → Option (Option Entry)
get s e =
    let idx = e.hash % num_shards in
    read_at s.shards idx (λ shard. HashSet.get cmp hash num_lists none shard (some e))

pub remove : Store → Store
remove s = s

pub append : Store → Store
append s = s

pub dump_shards : Store → Store
dump_shards s = s
