-- ===== src/Net/Buffer/Valid.antt =====
-- The invariant of a buffer, its abstract contents, and the operations that move only the indices.
use libeva.Base.{
  ℕ, ◌+◌, ◌-◌, ◌≤◌, ◌<◌, ◌≡◌, refl, sym, ◌∙◌, inl, inr, List, [], arith, length, take, drop, slice,
  ltb, Bool-cases, max_size, length-replicate, length-slice, drop-all, slice-shift, add_size,
  sub_size, take-all, size_of_int-int_of_size, take-take, ◌^◌,
}
use libeva.Net.Buffer.{
  Buffer, cheap_prepend, init, readable_bytes, writable_bytes, prependable_bytes, peek,
  to_string_view, retrieve, retrieve_all, retrieve_as_string, retrieve_all_as_string, unwrite,
}

pub record IsValid (b : Buffer) : Type 0 where
  pub low : cheap_prepend ≤ length b.bytes
  pub ordered : b.reader_index ≤ b.writer_index
  pub within : b.writer_index ≤ length b.bytes
  pub small : length b.bytes ≤ max_size

-- The unread bytes, oldest first.
unfoldable pub contents : Buffer → List ℕ
contents b = slice b.reader_index (b.writer_index - b.reader_index) b.bytes

pub readable_bytes_lem :
    {b : Buffer} → IsValid b → readable_bytes b ≡ b.writer_index - b.reader_index
unfolding readable_bytes
readable_bytes_lem v = omega arith

pub writable_bytes_lem :
    {b : Buffer} → IsValid b → writable_bytes b ≡ length b.bytes - b.writer_index
unfolding writable_bytes
writable_bytes_lem v = omega arith

pub length-contents : {b : Buffer} → IsValid b → length (contents b) ≡ readable_bytes b
unfolding contents
length-contents {b} v =
    length-slice b.reader_index (b.writer_index - b.reader_index) b.bytes (omega arith)
    ∙ sym (readable_bytes_lem v)

-- In a valid buffer no size_t subtraction wraps: the prependable, the readable and the writable
-- bytes make up the vector.
pub areas-sum :
    {b : Buffer}
    → IsValid b
    → prependable_bytes b + readable_bytes b + writable_bytes b ≡ length b.bytes
unfolding prependable_bytes
areas-sum v = omega (arith, readable_bytes_lem v, writable_bytes_lem v)

-- A new buffer is valid and empty.
pub init-IsValid :
    (size : ℕ) → cheap_prepend + size ≤ max_size → IsValid (init size) × (contents (init size) ≡ [])
unfolding init contents
init-IsValid size h = (
  record {
    low = omega (arith, length-replicate {A = ℕ} (cheap_prepend + size) 0);
    ordered = omega arith;
    within = omega (arith, length-replicate {A = ℕ} (cheap_prepend + size) 0);
    small = omega (arith, length-replicate {A = ℕ} (cheap_prepend + size) 0);
  },
  refl,
)

pub init-writer_index : (size : ℕ) → (init size).writer_index ≡ cheap_prepend
unfolding init
init-writer_index size = refl

pub retrieve-IsValid : {b : Buffer} (len : ℕ) → IsValid b → IsValid (retrieve b len)
unfolding retrieve retrieve_all
retrieve-IsValid {b} len v = ground (arith, readable_bytes_lem v)

pub contents-retrieve_all : (b : Buffer) → contents (retrieve_all b) ≡ []
unfolding contents retrieve_all
contents-retrieve_all b = refl

contents_advance :
    {b : Buffer} (len : ℕ)
    → IsValid b
    → len ≤ b.writer_index - b.reader_index
    → contents (record b { reader_index = add_size b.reader_index len }) ≡ drop len (contents b)
unfolding contents
contents_advance {b} len v h =
    let e : add_size r len ≡ r + len = omega arith in
    let e' : w - (r + len) ≡ w - r - len = omega arith in
    rw (e, e') (slice-shift r len (w - r) b.bytes h)
  where
    open b use {reader_index as r, writer_index as w}

-- Buffer::retrieve(len) of a valid buffer drops that many bytes from the front of the contents;
-- past the end it empties the buffer.
pub contents-retrieve :
    {b : Buffer} (len : ℕ) → IsValid b → contents (retrieve b len) ≡ drop len (contents b)
unfolding retrieve
contents-retrieve {b} len v = elim (Bool-cases (ltb len (readable_bytes b))) [
  | inl more ↦ rw more (contents_advance len v (ground (arith, readable_bytes_lem v)))
  | inr less ↦ rw less (
      contents-retrieve_all b ∙ sym (drop-all len (contents b) (ground (arith, length-contents v))))
]

-- The string that `retrieveAsString` returns, and what it leaves.
pub retrieve_as_string_lem :
    {b : Buffer} (len : ℕ)
    → IsValid b
    → len ≤ readable_bytes b
    → let (s, b') = retrieve_as_string b len in
      (s ≡ take len (contents b)) × (contents b' ≡ drop len (contents b))
unfolding retrieve_as_string peek contents
retrieve_as_string_lem {b} len v h =
    (sym (take-take len _ _ (omega (arith, readable_bytes_lem v))), contents-retrieve len v)

pub retrieve_all_as_string_lem :
    {b : Buffer}
    → IsValid b
    → let (s, b') = retrieve_all_as_string b in (s ≡ contents b) × (contents b' ≡ [])
unfolding retrieve_all_as_string retrieve_as_string
retrieve_all_as_string_lem {b} v =
    let (p, q) = retrieve_as_string_lem (readable_bytes b) v (omega arith) in
    let e : length (contents b) ≤ readable_bytes b = omega (arith, length-contents v) in
    (p ∙ take-all _ (contents b) e, q ∙ drop-all _ (contents b) e)

-- The view that `toStringView` gives is the whole contents, below 2 GiB.
pub to_string_view_lem :
    {b : Buffer} → IsValid b → readable_bytes b < 2 ^ 31 → to_string_view b ≡ contents b
unfolding to_string_view peek contents
to_string_view_lem {b} v h = rw (size_of_int-int_of_size (readable_bytes b) h, readable_bytes_lem v)

-- `unwrite` takes bytes back from the end.
pub unwrite_lem :
    {b : Buffer} (len : ℕ)
    → IsValid b
    → len ≤ readable_bytes b
    → IsValid (unwrite b len)
      × (contents (unwrite b len) ≡ take (readable_bytes b - len) (contents b))
unfolding unwrite contents
unwrite_lem {b} len v h =
    let e : sub_size b.writer_index len - b.reader_index ≡ readable_bytes b - len =
      omega (arith, readable_bytes_lem v) in
    (
      omega (arith, readable_bytes_lem v),
      rw e (sym (take-take _ _ _ (omega (arith, readable_bytes_lem v)))),
    )
