-- ===== src/Memcached/Entry.antt =====
-- minimemcached/Entry.h and Entry.cc: a key, a value and free space in one malloc'd block.
-- `block` is what `data_` points to. The three lengths are ints: 32-bit patterns, with their
-- wrap-around written out. A `memmove` past the end of the block is `none`. Fresh memory has any
-- content; it is 0 here, and what an operation exposes of it has been written before.
pub mod Valid
pub mod Copies
use libeva.Base.{
  ℕ, suc, ◌+◌, ◌-◌, ◌*◌, ◌%◌, ◌^◌, Bool, Option, none, some, List, [], ◌∷◌, ltb, leb, if◌then◌else◌,
  length, take, drop, slice, replicate, copy_at, size_of_int, int_of_size,
}
use libeva.Ds.LazyList.{◌>>=◌}
use libeva.Net.Buffer.{Buffer}
use libeva.Net.Buffer

pub record Entry : Type 0 where
  pub key_len : ℕ
  pub value_len : ℕ
  pub free : ℕ
  pub block : List ℕ
  pub hash : ℕ

abbrev pub add_int : ℕ → ℕ → ℕ
add_int a b = (a + b) % 2 ^ 32

abbrev pub sub_int : ℕ → ℕ → ℕ
sub_int a b = (a + 2 ^ 32 - b) % 2 ^ 32

-- `<` on ints: the sign bit is flipped.
abbrev pub lt_int : ℕ → ℕ → Bool
lt_int a b = ltb ((a + 2 ^ 31) % 2 ^ 32) ((b + 2 ^ 31) % 2 ^ 32)

-- `memmove(block + at, data, len)`
unfoldable pub mem_move : List ℕ → ℕ → List ℕ → Option (List ℕ)
mem_move block at data' =
    if leb (at + length data') (length block) then some (copy_at block at data') else none

-- A char is signed: from 128 on it is converted to size_t with its sign.
abbrev pub size_of_char : ℕ → ℕ
size_of_char c = if ltb c 128 then c else c + (2 ^ 64 - 256)

hash_from : ℕ → List ℕ → ℕ
hash_from ret [] = ret
hash_from ret (c ∷ rest) = hash_from ((ret * 131 + size_of_char c) % 2 ^ 64) rest

unfoldable pub hash_str : List ℕ → ℕ
unfolding hash_from
hash_str str = hash_from 0 str

-- `Entry(const char*, int, int, int)`; `data'` is the memory at the pointer.
pub clone : List ℕ → ℕ → ℕ → ℕ → Option Entry
clone data' key_len value_len free = do
  let size = size_of_int (add_int (add_int key_len value_len) free)
  block ← mem_move (replicate size 0) 0 (take (size_of_int (add_int key_len value_len)) data')
  some (record {
    key_len = key_len;
    value_len = value_len;
    free = free;
    block = block;
    hash = hash_str (take (size_of_int key_len) data');
  })

pub retrieve : Entry → ℕ → Entry
retrieve e num_bytes = record e { free = sub_int e.free num_bytes }

pub reset : Entry → Entry
reset e = record e {
  free = add_int e.free (add_int e.key_len e.value_len);
  key_len = 0;
  value_len = 0;
}

pub num_free : Entry → ℕ
num_free e = size_of_int e.free

pub entry_length : Entry → ℕ
entry_length e = add_int e.key_len e.value_len

unfoldable pub key : Entry → List ℕ
key e = take (size_of_int e.key_len) e.block

unfoldable pub value : Entry → List ℕ
value e = slice (size_of_int e.key_len) (size_of_int e.value_len) e.block

pub append : Entry → List ℕ → Option Entry
unfolding retrieve entry_length
append e data' = do
  block ← mem_move e.block (size_of_int (entry_length e)) data'
  some (
      retrieve
        (record e { block = block; value_len = add_int e.value_len (int_of_size (length data')) })
        (int_of_size (length data')))

pub reset_key : Entry → List ℕ → Option Entry
unfolding retrieve
reset_key e k = do
  let free = add_int e.free (add_int e.key_len e.value_len)
  let key_len = int_of_size (length k)
  block ← mem_move e.block 0 (take (size_of_int key_len) k)
  some
      (record (retrieve (record e { free = free; key_len = key_len; value_len = 0; block = block })
        key_len) { hash = hash_str k })

-- `Entry(key, valueLen)`
pub init : List ℕ → ℕ → Option Entry
unfolding reset_key
init k value_len =
    let size = add_int (int_of_size (length k)) value_len in
    reset_key
      (record {
        key_len = 0;
        value_len = 0;
        free = size;
        block = replicate (size_of_int size) 0;
        hash = 0;
      })
      k

-- `resetKey(key, valueLen)`: a new block if the two lengths do not fit the old total.
pub reset_key_value : Entry → List ℕ → ℕ → Option Entry
reset_key_value e k value_len = do
  let cur_total = add_int (add_int e.key_len e.value_len) e.free
  let key_len = int_of_size (length k)
  let req_total = add_int key_len value_len
  let block =
      if lt_int cur_total req_total
      then replicate (size_of_int (add_int key_len value_len)) 0
      else e.block
  block' ← mem_move block 0 (take (size_of_int key_len) k)
  some (record e {
    key_len = key_len;
    value_len = 0;
    free = value_len;
    block = block';
    hash = hash_str k;
  })

-- "VALUE ", the key, CRLF and the value.
pub copy_to_buffer : Entry → Buffer → Buffer
unfolding key value
copy_to_buffer e buf =
    let b1 = Buffer.append buf (b'V' ∷ b'A' ∷ b'L' ∷ b'U' ∷ b'E' ∷ b' ' ∷ []) in
    let b2 = Buffer.append b1 (key e) in
    let b3 = Buffer.append b2 (b'\r' ∷ b'\n' ∷ []) in Buffer.append b3 (value e)
