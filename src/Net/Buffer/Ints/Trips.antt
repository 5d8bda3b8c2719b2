-- ===== src/Net/Buffer/Ints/Trips.antt =====
-- What is written as an integer is read back as it.
use libeva.Base.{
  ℕ, ◌+◌, ◌^◌, ◌≤◌, ◌<◌, ◌≡◌, sym, ap, ◌∙◌, List, [], ◌++◌, arith, length, take, drop, max_size,
  take-take, take-append_length, drop-append_length, length-append, append-nil,
}
use libeva.Net.Endian.{
  le_bytes, of_le, be_bytes, swap_bytes, values, le_bytes-swap_bytes, length-be_bytes,
  length-le_bytes, swap_bytes-be_bytes, of_le-le_bytes,
}
use libeva.Net.Buffer.{Buffer, readable_bytes, append, prepend, peek, retrieve}
use libeva.Net.Buffer.Valid.{
  IsValid, contents, readable_bytes_lem, length-contents, retrieve-IsValid, contents-retrieve,
}
use libeva.Net.Buffer.Append.{append_lem, prepend_lem}
use libeva.Net.Buffer.Ints.{
  append_int64, append_int32, append_int16, append_int8, read_int64, read_int32, read_int16,
  read_int8, peek_int64, peek_int32, peek_int16, peek_int8, prepend_int64, prepend_int32,
  prepend_int16, prepend_int8,
}

pub peek-contents :
    {b : Buffer} (n : ℕ) → IsValid b → n ≤ readable_bytes b → peek b n ≡ take n (contents b)
unfolding peek contents
peek-contents n v h = sym (take-take n _ _ (omega (arith, readable_bytes_lem v)))

-- The bytes at the front are peeked, and `retrieve` leaves what follows them.
peek-front :
    {b : Buffer} (n : ℕ) (xs rest : List ℕ)
    → IsValid b
    → length xs ≡ n
    → contents b ≡ xs ++ rest
    → (peek b n ≡ xs) × (contents (retrieve b n) ≡ rest)
peek-front {b} n xs rest v l e = (
  peek-contents n v (omega (arith, ap length e, length-append xs rest, length-contents v))
      ∙ ap (take n) e
      ∙ take-append_length n xs rest (sym l),
  contents-retrieve n v ∙ ap (drop n) e ∙ drop-append_length n xs rest (sym l),
)

-- What `read` gives of a buffer that begins with an integer of `n` bytes in network order.
read-front :
    {b : Buffer} (n x : ℕ) (rest : List ℕ)
    → IsValid b
    → x < values n
    → contents b ≡ be_bytes n x ++ rest
    → (swap_bytes n (of_le (peek b n)) ≡ x) × (contents (retrieve b n) ≡ rest)
read-front {b} n x rest v h e =
    let p = peek-front n (be_bytes n x) rest v (length-be_bytes n x) e in
    (ap (λ l. swap_bytes n (of_le l)) p.0 ∙ swap_bytes-be_bytes n x h, p.1)

-- After an append of `xs`, retrieving what was there before leaves `xs`.
retrieve-append :
    {b : Buffer} (xs : List ℕ)
    → IsValid b
    → b.writer_index + length xs ≤ max_size
    → let b' = retrieve (append b xs) (readable_bytes b) in IsValid b' × (contents b' ≡ xs ++ [])
retrieve-append {b} xs v fits =
    let p = append_lem xs v fits in
    (
      retrieve-IsValid (readable_bytes b) p.0,
      contents-retrieve (readable_bytes b) p.0
          ∙ ap (drop (readable_bytes b)) p.1
          ∙ drop-append_length (readable_bytes b) (contents b) xs (sym (length-contents v))
          ∙ sym (append-nil xs),
    )

swapped-length : (n x : ℕ) → length (le_bytes n (swap_bytes n x)) ≡ n
swapped-length n x = length-le_bytes n (swap_bytes n x)

read-append :
    {b : Buffer} (n x : ℕ)
    → IsValid b
    → b.writer_index + n ≤ max_size
    → x < values n
    → let b' = retrieve (append b (le_bytes n (swap_bytes n x))) (readable_bytes b) in
      (swap_bytes n (of_le (peek b' n)) ≡ x) × (contents (retrieve b' n) ≡ [])
read-append {b} n x v fits h =
    let p = retrieve-append (le_bytes n (swap_bytes n x)) v (omega (arith, swapped-length n x)) in
    read-front n x [] p.0 h (p.1 ∙ ap (λ l. l ++ []) (le_bytes-swap_bytes n x))

read-prepend :
    {b : Buffer} (n x : ℕ)
    → IsValid b
    → n ≤ b.reader_index
    → x < values n
    → let b' = prepend b (le_bytes n (swap_bytes n x)) in
      (swap_bytes n (of_le (peek b' n)) ≡ x) × (contents (retrieve b' n) ≡ contents b)
read-prepend {b} n x v fits h =
    let p = prepend_lem (le_bytes n (swap_bytes n x)) v (omega (arith, swapped-length n x)) in
    read-front n x (contents b) p.0 h (p.1 ∙ ap (λ l. l ++ contents b) (le_bytes-swap_bytes n x))

-- An integer of 64, 32, 16 or 8 bits that is appended to a valid buffer is read back, and nothing
-- is left, once what the buffer held before it has been retrieved.
pub read-append_ints :
    {b : Buffer} (x y w z : ℕ)
    → IsValid b
    → b.writer_index + 8 ≤ max_size
    → x < 2 ^ 64
    → y < 2 ^ 32
    → w < 2 ^ 16
    → z < 2 ^ 8
    → let (x', b1) = read_int64 (retrieve (append_int64 b x) (readable_bytes b)) in
      let (y', b2) = read_int32 (retrieve (append_int32 b y) (readable_bytes b)) in
      let (w', b3) = read_int16 (retrieve (append_int16 b w) (readable_bytes b)) in
      let (z', b4) = read_int8 (retrieve (append_int8 b z) (readable_bytes b)) in
      (x' ≡ x)
      × (contents b1 ≡ [])
      × (y' ≡ y)
      × (contents b2 ≡ [])
      × (w' ≡ w)
      × (contents b3 ≡ [])
      × (z' ≡ z)
      × (contents b4 ≡ [])
unfolding append_int64 append_int32 append_int16 append_int8 read_int64 read_int32 read_int16
    read_int8 peek_int64 peek_int32 peek_int16 peek_int8
read-append_ints {b} x y w z v fits hx hy hw hz =
    let p = read-append 8 x v fits hx in
    let q = read-append 4 y v (omega arith) hy in
    let o = read-append 2 w v (omega arith) hw in
    let r = retrieve-append (le_bytes 1 z) v (omega (arith, length-le_bytes 1 z)) in
    let s = peek-front 1 (le_bytes 1 z) [] r.0 (length-le_bytes 1 z) r.1 in
    (p.0, p.1, q.0, q.1, o.0, o.1, ap of_le s.0 ∙ of_le-le_bytes 1 z hz, s.1)

-- An integer of 64, 32, 16 or 8 bits that is prepended to a valid buffer with 8 prependable bytes
-- is read back, and leaves the contents.
pub read-prepend_ints :
    {b : Buffer} (x y w z : ℕ)
    → IsValid b
    → 8 ≤ b.reader_index
    → x < 2 ^ 64
    → y < 2 ^ 32
    → w < 2 ^ 16
    → z < 2 ^ 8
    → let (x', b1) = read_int64 (prepend_int64 b x) in
      let (y', b2) = read_int32 (prepend_int32 b y) in
      let (w', b3) = read_int16 (prepend_int16 b w) in
      let (z', b4) = read_int8 (prepend_int8 b z) in
      (x' ≡ x)
      × (contents b1 ≡ contents b)
      × (y' ≡ y)
      × (contents b2 ≡ contents b)
      × (w' ≡ w)
      × (contents b3 ≡ contents b)
      × (z' ≡ z)
      × (contents b4 ≡ contents b)
unfolding prepend_int64 prepend_int32 prepend_int16 prepend_int8 read_int64 read_int32 read_int16
    read_int8 peek_int64 peek_int32 peek_int16 peek_int8
read-prepend_ints {b} x y w z v fits hx hy hw hz =
    let p = read-prepend 8 x v fits hx in
    let q = read-prepend 4 y v (omega arith) hy in
    let o = read-prepend 2 w v (omega arith) hw in
    let r = prepend_lem (le_bytes 1 z) v (omega (arith, length-le_bytes 1 z)) in
    let s = peek-front 1 (le_bytes 1 z) (contents b) r.0 (length-le_bytes 1 z) r.1 in
    (p.0, p.1, q.0, q.1, o.0, o.1, ap of_le s.0 ∙ of_le-le_bytes 1 z hz, s.1)
