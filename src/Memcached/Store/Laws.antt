-- ===== src/Memcached/Store/Laws.antt =====
-- The server's store finds, under each key, the entry that was set last.
use libeva.Base.{
  ℕ, ◌+◌, ◌%◌, ◌<◌, ◌≡◌, refl, ap, ◌∙◌, true, Option, none, some, List, arith, replicate, length,
  get_elem?, length-replicate, if◌then◌else◌,
}
use native.Mathlib.Nat.{mod-lt}
use libeva.Ds.Sorted.{same}
use libeva.Ds.KeySet.{KeySet, update_at, read_at, table, table_past, replicate-TableHas}
use libeva.Ds.LazyList.Refine.{found_or}
use libeva.Ds.LazyList.{LazyList}
use libeva.Ds.LazyList.Faults.{NullRead}
use libeva.Ds.HashSet
use libeva.Ds.HashSet.{HashSet}
use libeva.Ds.HashSet.Laws.{hash_set, hash-init, hash_past}
use libeva.Memcached.Entry.{Entry, key, hash_str}
use libeva.Memcached.Entry.Valid.{keyed, key-keyed, init_lem}
use libeva.Memcached.Store.{Store, num_shards, num_lists, lt_bytes, cmp, hash, init, set, get}
use libeva.Memcached.Store.Order.{cmp-IsOrder, Hashed, hash-respects}

abbrev shard : Option Entry → ℕ
shard p = hash p % num_shards

lists_positive : 0 < num_lists
lists_positive = omega arith

shard_in_range : (p : Option Entry) → shard p < num_shards
shard_in_range p = mod-lt (hash p) (omega arith)

shard_respects :
    (i j : Option Entry) → Hashed i → Hashed j → same cmp i j ≡ true → shard i ≡ shard j
shard_respects i j a b h = ap (λ k. k % num_shards) (hash-respects i j a b h)

-- A lookup of an entry, and of a pointer to one.
abbrev pub pointer_to : Option Entry → Option (Option Entry)
pointer_to none = none
pointer_to (some e) = some (some e)

found_or-pointer_to : (r : Option Entry) → found_or (pointer_to r) none ≡ r
found_or-pointer_to none = refl
found_or-pointer_to (some e) = refl

-- The list of a hash set that an entry belongs to, in which the loop of a call reads through a null
-- link.
abbrev pub ReadsNull : Entry → HashSet (Option Entry) → Type 0
ReadsNull e s =
    (l : LazyList (Option Entry)) × (get_elem? s.buckets (hash (some e) % num_lists) ≡ some l)
    × NullRead cmp l (some e)

module _ (greatest : Entry) where
  pub shards_set :
      KeySet cmp none
        (some greatest)
        Hashed
        (λ ss p. update_at ss (shard p) (λ s. HashSet.add cmp hash num_lists s p))
        (λ ss p. update_at ss (shard p) (λ s. HashSet.remove cmp hash num_lists s p))
        (λ ss p. read_at ss (shard p) (λ s. HashSet.get cmp hash num_lists none s p))
  shards_set =
      table
        (hash_set cmp cmp-IsOrder none (some greatest) Hashed hash num_lists lists_positive
          hash-respects)
        shard num_shards shard_in_range shard_respects

  -- Under each key the store finds what `g` gives.
  pub record Finds (s : Store) (g : List ℕ → Option Entry) : Type 0 where
    pub pointers : Option Entry → Option (Option Entry)
    pub has : shards_set.Has s.shards pointers
    pub agrees :
        (e : Entry) → e.hash ≡ hash_str (key e) → pointers (some e) ≡ pointer_to (g (key e))

  -- `set` of an entry whose key is below the greatest returns, and from then on the store finds
  -- this entry under its key, and what it found before under the other keys.
  pub set_lem :
      (s : Store) (g : List ℕ → Option Entry) (e : Entry)
      → Finds s g
      → e.hash ≡ hash_str (key e)
      → lt_bytes (key e) (key greatest) ≡ true
      → (s' : Store) × (set s e ≡ some s')
        × Finds s' (λ k. if same lt_bytes (key e) k then some e else g k)
  unfolding set cmp
  set_lem s g e v ok fits =
      let (ss, q, h) = shards_set.added s.shards v.pointers (some e) v.has ok fits in
      (
        record { shards = ss },
        rw q refl,
        record {
          pointers = λ p. if same cmp (some e) p then some (some e) else v.pointers p;
          has = h;
          agrees = λ e' ok'. ground (arith, v.agrees e' ok');
        },
      )

  -- `get` of a key below the greatest returns the entry that the store finds under it, or null.
  pub get_lem :
      (s : Store) (g : List ℕ → Option Entry) (e : Entry)
      → Finds s g
      → e.hash ≡ hash_str (key e)
      → lt_bytes (key e) (key greatest) ≡ true
      → get s e ≡ some (g (key e))
  unfolding get cmp
  get_lem s g e v ok fits =
      shards_set.got s.shards v.pointers (some e) v.has ok fits
      ∙ ap (λ r. some (found_or r none)) (v.agrees e ok)
      ∙ ap some (found_or-pointer_to (g (key e)))

  -- The shards of a new server are empty.
  pub new_shards-Finds :
      Finds
        (record { shards = replicate num_shards (HashSet.init num_lists none (some greatest)) })
        (λ k. none)
  unfolding shards_set
  new_shards-Finds = record {
    pointers = λ p. none;
    has =
        replicate-TableHas
          (hash_set cmp cmp-IsOrder none (some greatest) Hashed hash num_lists lists_positive
            hash-respects)
          shard num_shards shard_in_range shard_respects
          (HashSet.init num_lists none (some greatest))
          (hash-init cmp cmp-IsOrder none (some greatest) Hashed hash num_lists lists_positive
            hash-respects);
    agrees = λ e ok. refl;
  }

  -- MiniMemcached::set of an entry whose key is below the greatest returns, and a later get with a
  -- key below the greatest returns this entry if the keys are equal, and otherwise what it
  -- returned before.
  pub get-set :
      (s : Store) (g : List ℕ → Option Entry) (e q : Entry)
      → Finds s g
      → e.hash ≡ hash_str (key e)
      → q.hash ≡ hash_str (key q)
      → lt_bytes (key e) (key greatest) ≡ true
      → lt_bytes (key q) (key greatest) ≡ true
      → (s' : Store) × (set s e ≡ some s')
        × (get s' q ≡ (if same lt_bytes (key e) (key q) then some (some e) else get s q))
  get-set s g e q v ok ok' fits fits' =
      let (s', d, v') = set_lem s g e v ok fits in
      (s', d, get_lem s' _ q v' ok' fits' ∙ ground (arith, get_lem s g q v ok' fits'))

  -- MiniMemcached::set and get of a key greater than the greatest do not return: in the list of the
  -- shard that the key belongs to, the rounds of the loop come from the first node to one whose
  -- entry is below the key and whose next_ is null, which the next round reads through.
  pub past_greatest_faults :
      (s : Store) (g : List ℕ → Option Entry) (e : Entry)
      → Finds s g
      → lt_bytes (key greatest) (key e) ≡ true
      → ((s' : HashSet (Option Entry)) × (get_elem? s.shards (hash (some e) % num_shards) ≡ some s')
          × ReadsNull e s')
        × (set s e ≡ none)
        × (get s e ≡ none)
  unfolding set get cmp shards_set
  past_greatest_faults s g e v past =
      let (n, a, r, f) =
        table_past
          (hash_set cmp cmp-IsOrder none (some greatest) Hashed hash num_lists lists_positive
            hash-respects)
          shard num_shards shard_in_range shard_respects s.shards v.pointers (some e) v.has
          (ReadsNull e)
          (λ s' f' h.
            hash_past cmp cmp-IsOrder none (some greatest) Hashed hash num_lists lists_positive
              hash-respects s' f' (some e) h past) in
      (n, rw a refl, f)

-- The constructor of MiniMemcached returns, with a store that finds nothing, whose greatest key is
-- a hundred z.
pub init-Finds :
    (greatest : Entry) × (s : Store) × (init ≡ some s)
    × Finds greatest s (λ k. none)
    × (key greatest ≡ replicate 100 b'z')
unfolding init
init-Finds =
    let k : List ℕ = replicate 100 b'z' in
    let greatest = keyed (replicate (length k + 256) 0) k 256 in
    let l = length-replicate {A = ℕ} 100 b'z' in
    let l' = length-replicate {A = ℕ} (length k + 256) 0 in
    (
      greatest,
      record { shards = replicate num_shards (HashSet.init num_lists none (some greatest)) },
      rw (init_lem k 256 (omega (arith, l))) refl,
      new_shards-Finds greatest,
      key-keyed (replicate (length k + 256) 0) k 256 (omega (arith, l')) (omega (arith, l)),
    )
