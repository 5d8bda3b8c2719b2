-- ===== src/Net/Buffer/Space.antt =====
-- Room for a write: `ensureWritableBytes` and `makeSpace`.
use libeva.Base.{
  ℕ, ◌+◌, ◌-◌, ◌≤◌, ◌<◌, ◌≡◌, refl, ap, ◌∙◌, inl, inr, false, ◌++◌, arith, length, slice, replicate,
  ltb, ltb→lt, Bool-cases, max_size, add_size, copy_at, length-copy_at, length-append,
  length-replicate, slice-append, take-all, slice-copy_at_start, append-nil, length-slice,
}
use libeva.Net.Buffer.{
  Buffer, cheap_prepend, readable_bytes, writable_bytes, prependable_bytes, peek, resize,
  make_space, ensure_writable_bytes,
}
use libeva.Net.Buffer.Valid.{IsValid, contents, readable_bytes_lem, writable_bytes_lem}

-- What the caller of `ensureWritableBytes(len)` has afterwards.
pub record Ensured (b : Buffer) (len : ℕ) (b' : Buffer) : Type 0 where
  pub valid : IsValid b'
  pub room : b'.writer_index + len ≤ length b'.bytes
  pub same : contents b' ≡ contents b
  pub no_shorter : length b.bytes ≤ length b'.bytes

module _ {b : Buffer} (len : ℕ) (v : IsValid b) where
  grow-Ensured :
      length b.bytes < b.writer_index + len
      → b.writer_index + len ≤ max_size
      → Ensured b len (record b { bytes = resize b.bytes (add_size b.writer_index len) })
  unfolding contents
  grow-Ensured h fits =
      let e : add_size w len ≡ w + len = omega arith in
      let t = take-all (w + len) bytes (omega arith) in
      let n : length (bytes ++ replicate (w + len - length bytes) 0) ≡ w + len = omega (
        arith,
        length-append bytes (replicate (w + len - length bytes) 0),
        length-replicate {A = ℕ} (w + len - length bytes) 0,
      ) in
      rw (e, t)
        (record {
          valid = omega (arith, n);
          room = omega (arith, n);
          same = slice-append r (w - r) bytes _ (omega arith);
          no_shorter = omega (arith, n, h);
        })
    where
      open b use {bytes, reader_index as r, writer_index as w}

  -- The readable bytes move to the front only where the front is past `kCheapPrepend`.
  move-Ensured :
      cheap_prepend < b.reader_index
      → len + cheap_prepend ≤ length b.bytes - b.writer_index + b.reader_index
      → Ensured b len (record {
        bytes = copy_at b.bytes cheap_prepend (peek b (readable_bytes b));
        reader_index = cheap_prepend;
        writer_index = add_size cheap_prepend (readable_bytes b);
      })
  unfolding contents peek
  move-Ensured h fits =
      let data' = slice r n bytes in
      let l : length data' ≡ n = length-slice r n bytes (omega (arith, e)) in
      let e' : add_size cheap_prepend n ≡ cheap_prepend + n = omega (arith, e) in
      let k : cheap_prepend + n - cheap_prepend ≡ n = omega arith in
      rw e' (record {
        valid = omega (arith, e, length-copy_at bytes cheap_prepend data');
        room = omega (arith, e, length-copy_at bytes cheap_prepend data');
        same = rw k (
            slice-copy_at_start bytes data' cheap_prepend 0 n (omega (arith, l)) (omega (arith, e))
            ∙ append-nil data'
            ∙ ap (λ m. slice r m bytes) e);
        no_shorter = omega (arith, length-copy_at bytes cheap_prepend data');
      })
    where
      open b use {bytes, reader_index as r, writer_index as w}

      n : ℕ
      n = readable_bytes b

      e : n ≡ w - r
      e = readable_bytes_lem v

  -- `makeSpace` gives the room that is missing and keeps the contents, on both of its branches.
  make_space-Ensured :
      writable_bytes b < len → b.writer_index + len ≤ max_size → Ensured b len (make_space b len)
  unfolding make_space prependable_bytes
  make_space-Ensured h fits =
      elim (Bool-cases
        (ltb (add_size (writable_bytes b) b.reader_index) (add_size len cheap_prepend))) [
          | inl grow ↦ rw grow (grow-Ensured (omega (arith, writable_bytes_lem v)) fits)
          | inr move ↦ rw move (move-Ensured (enough move).0 (enough move).1)
        ]
    where
      enough :
          ltb (add_size (writable_bytes b) b.reader_index) (add_size len cheap_prepend) ≡ false
          → (cheap_prepend < b.reader_index)
            × (len + cheap_prepend ≤ length b.bytes - b.writer_index + b.reader_index)
      enough e = ground (arith, writable_bytes_lem v)

  -- After ensureWritableBytes(len) a valid buffer is valid, has the same contents, has room for
  -- len bytes, and its vector is not shorter than before, as long as the vector may grow.
  pub ensure_writable_bytes-Ensured :
      b.writer_index + len ≤ max_size → Ensured b len (ensure_writable_bytes b len)
  unfolding ensure_writable_bytes
  ensure_writable_bytes-Ensured fits = elim (Bool-cases (ltb (writable_bytes b) len)) [
    | inl short ↦ rw short (make_space-Ensured (ltb→lt _ _ short) fits)
    | inr enough ↦ rw enough (record {
      valid = v;
      room = ground (arith, writable_bytes_lem v);
      same = refl;
      no_shorter = omega arith;
    })
  ]

  -- The vector grows only if the bytes in front of the contents do not give the room either.
  pub ensure_writable_bytes_reuse :
      len + cheap_prepend ≤ writable_bytes b + prependable_bytes b
      → length (ensure_writable_bytes b len).bytes ≡ length b.bytes
  unfolding ensure_writable_bytes make_space prependable_bytes
  ensure_writable_bytes_reuse h = ground (
    arith,
    writable_bytes_lem v,
    length-copy_at b.bytes cheap_prepend (peek b (readable_bytes b)),
  )
