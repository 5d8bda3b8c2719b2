-- ===== src/Memcached/Entry/Valid.antt =====
-- The entry between two calls: its lengths count the parts of the block.
use libeva.Base.{
  [], ℕ, ◌+◌, ◌-◌, ◌^◌, ◌≤◌, ◌<◌, ◌≡◌, refl, sym, ap, ◌∙◌, none, some, List, arith, length, take,
  replicate, copy_at, size_of_int, int_of_size, length-copy_at, length-replicate, take-copy_at, ltb,
  size_of_int-int_of_size, take-all, inl, inr, Bool-cases, if◌then◌else◌,
}
use libeva.Memcached.Entry.{
  Entry, mem_move, init, hash_str, reset_key, reset_key_value, key, retrieve, add_int, sub_int,
  lt_int, reset, value,
}

-- The key, the value and the free space lie in the block, and an int counts it.
pub record IsSized (e : Entry) : Type 0 where
  pub fits : e.key_len + e.value_len + e.free ≤ length e.block
  pub small : length e.block < 2 ^ 31

-- And the hash is that of the key, which `reset` does not see to.
pub record IsEntry (e : Entry) : Type 0 where
  pub fits : e.key_len + e.value_len + e.free ≤ length e.block
  pub small : length e.block < 2 ^ 31
  pub hashed : e.hash ≡ hash_str (key e)

pub IsEntry-IsSized : {e : Entry} → IsEntry e → IsSized e
IsEntry-IsSized v = record { fits = v.fits; small = v.small }

pub size_small : (n : ℕ) → n < 2 ^ 31 → size_of_int n ≡ n
size_small n h = ground arith

pub int_small : (n : ℕ) → n < 2 ^ 31 → int_of_size n ≡ n
int_small n h = omega arith

pub mem_move_lem :
    (block : List ℕ) (at : ℕ) (xs : List ℕ)
    → at + length xs ≤ length block
    → mem_move block at xs ≡ some (copy_at block at xs)
unfolding mem_move
mem_move_lem block at xs h = ground arith

-- The whole key, as the int of its length takes it.
take-whole : (k : List ℕ) → length k < 2 ^ 31 → take (size_of_int (int_of_size (length k))) k ≡ k
take-whole k h =
    ap (λ n. take n k) (size_of_int-int_of_size (length k) h) ∙ take-all (length k) k (omega arith)

-- The entry with a key and no value.
abbrev pub keyed : List ℕ → List ℕ → ℕ → Entry
keyed block k free = record {
  key_len = length k;
  value_len = 0;
  free = free;
  block = copy_at block 0 k;
  hash = hash_str k;
}

pub key-keyed :
    (block k : List ℕ) (free : ℕ)
    → length k ≤ length block
    → length k < 2 ^ 31
    → key (keyed block k free) ≡ k
unfolding key
key-keyed block k free h lt =
    ap (λ n. take n (copy_at block 0 k)) (size_small (length k) lt) ∙ take-copy_at block k h

pub keyed-IsEntry :
    (block k : List ℕ) (free : ℕ)
    → length k + free ≤ length block
    → length block < 2 ^ 31
    → IsEntry (keyed block k free)
keyed-IsEntry block k free h lt = record {
  fits = omega (arith, length-copy_at block 0 k);
  small = omega (arith, length-copy_at block 0 k);
  hashed = ap hash_str (sym (key-keyed block k free (omega arith) (omega arith)));
}

-- `resetKey(key)` of a key that fits in the three lengths.
pub reset_key_lem :
    (e : Entry) (k : List ℕ)
    → IsSized e
    → length k ≤ e.key_len + e.value_len + e.free
    → reset_key e k ≡ some (keyed e.block k (e.key_len + e.value_len + e.free - length k))
unfolding reset_key retrieve
reset_key_lem e k v h =
    let lt : length k < 2 ^ 31 = omega (arith, v.small, v.fits) in
    let free : sub_int (add_int e.free (add_int e.key_len e.value_len)) (length k)
        ≡ e.key_len + e.value_len + e.free - length k =
      omega (arith, v.small, v.fits) in
    rw
      (
        take-whole k lt,
        int_small (length k) lt,
        free,
        mem_move_lem e.block 0 k (omega (arith, v.fits)),
      )
      refl

-- A new block, all free.
abbrev fresh : ℕ → Entry
fresh m = record { key_len = 0; value_len = 0; free = m; block = replicate m 0; hash = 0 }

-- `Entry(key, valueLen)` has the key and room for the value.
pub init_lem :
    (k : List ℕ) (n : ℕ)
    → length k + n < 2 ^ 31
    → init k n ≡ some (keyed (replicate (length k + n) 0) k n)
unfolding init
init_lem k n lt =
    let size : add_int (int_of_size (length k)) n ≡ length k + n = omega (arith, lt) in
    let l = length-replicate {A = ℕ} (length k + n) 0 in
    let v : IsSized (fresh (length k + n)) = record {
      fits = omega (arith, l);
      small = omega (arith, l, lt);
    } in
    let free : 0 + 0 + (length k + n) - length k ≡ n = omega arith in
    rw (size, size_small (length k + n) lt)
      (reset_key_lem (fresh (length k + n)) k v (omega arith)
        ∙ ap (λ f. some (keyed (replicate (length k + n) 0) k f)) free)

-- resetKey(key) copies a key that is longer than the block, and shorter than 2^31, past the end of
-- the block.
pub reset_key_overflows :
    (e : Entry) (k : List ℕ) → length e.block < length k → length k < 2 ^ 31 → reset_key e k ≡ none
unfolding reset_key mem_move
reset_key_overflows e k h lt = rw (take-whole k lt) (ground arith)

-- The block that `resetKey(key, valueLen)` goes on with.
abbrev pub room_for : Entry → List ℕ → ℕ → List ℕ
room_for e k n =
    if ltb (e.key_len + e.value_len + e.free) (length k + n)
    then replicate (length k + n) 0
    else e.block

pub length-room_for :
    (e : Entry) (k : List ℕ) (n : ℕ)
    → IsSized e
    → length k + n < 2 ^ 31
    → (length k + n ≤ length (room_for e k n)) × (length (room_for e k n) < 2 ^ 31)
length-room_for e k n v lt =
    elim (Bool-cases (ltb (e.key_len + e.value_len + e.free) (length k + n))) [
      | inl more ↦
          let l = length-replicate {A = ℕ} (length k + n) 0 in
          rw more (omega (arith, l), omega (arith, l))
      | inr less ↦ rw less (ground (arith, v.fits, less), v.small)
    ]

pub lt_int_small : (a b : ℕ) → a < 2 ^ 31 → b < 2 ^ 31 → lt_int a b ≡ ltb a b
lt_int_small a b h k = ground arith

-- `Reset` of an entry keeps the block, all of it free.
pub reset-IsSized :
    (e : Entry)
    → IsSized e
    → IsSized (reset e)
      × ((reset e).key_len + (reset e).value_len + (reset e).free
          ≡ e.key_len + e.value_len + e.free)
unfolding reset
reset-IsSized e v =
    let free : add_int e.free (add_int e.key_len e.value_len) ≡ e.key_len + e.value_len + e.free =
      omega (arith, v.small, v.fits) in
    (record { fits = omega (arith, free, v.fits); small = v.small }, omega (arith, free))

pub value-keyed : (block k : List ℕ) (free : ℕ) → value (keyed block k free) ≡ []
unfolding value
value-keyed block k free = refl

-- resetKey(key, valueLen) of a key and a value length that an int can count stores the key, leaves
-- room for the value in the old block or a new one, and gives an entry that
-- keeps its invariant.
pub reset_key_value_lem :
    (e : Entry) (k : List ℕ) (n : ℕ)
    → IsSized e
    → length k + n < 2 ^ 31
    → (reset_key_value e k n ≡ some (keyed (room_for e k n) k n))
      × IsEntry (keyed (room_for e k n) k n)
unfolding reset_key_value
reset_key_value_lem e k n v lt =
    let l : length k < 2 ^ 31 = omega (arith, lt) in
    let total : add_int (add_int e.key_len e.value_len) e.free ≡ e.key_len + e.value_len + e.free =
      omega (arith, v.small, v.fits) in
    let room = length-room_for e k n v lt in
    let req : add_int (length k) n ≡ length k + n = omega (arith, lt) in
    (
      rw
          (
            take-whole k l,
            int_small (length k) l,
            total,
            req,
            size_small (length k + n) lt,
            lt_int_small (e.key_len + e.value_len + e.free) (length k + n)
                (omega (arith, v.small, v.fits)) lt,
            mem_move_lem (room_for e k n) 0 k (omega (arith, room.0)),
          )
          refl,
      keyed-IsEntry (room_for e k n) k n room.0 room.1,
    )
