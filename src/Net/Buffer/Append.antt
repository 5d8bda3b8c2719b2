-- ===== src/Net/Buffer/Append.antt =====
-- The operations that write bytes: `append`, `prepend`, `shrink` and `readFd`.
use libeva.Base.{
  ℕ, ◌+◌, ◌-◌, ◌≤◌, ◌<◌, ◌≡◌, refl, ap, ◌∙◌, inl, inr, List, [], ◌++◌, arith, length, take, drop,
  slice, leb, leb→le, Bool-cases, none, some, max_size, add_size, sub_size, length-copy_at,
  length-take, length-drop, slice-copy_at_start, slice-copy_at_end, append_assoc, take-append-drop,
  take-all, ◌^◌,
}
use libeva.Net.Buffer.{
  Buffer, cheap_prepend, initial_size, init, readable_bytes, writable_bytes, ensure_writable_bytes,
  write_data, has_written, append, prepend, shrink, swap, to_string_view, stored, failed,
  extra_size, readv_room, read_fd,
}
use libeva.Net.Buffer.Valid.{
  IsValid, contents, writable_bytes_lem, length-contents, init-IsValid, init-writer_index,
  to_string_view_lem,
}
use libeva.Net.Buffer.Space.{Ensured, ensure_writable_bytes-Ensured}

-- A write of `xs` at the write end, with the write index moved behind it.
written :
    {b : Buffer} (xs : List ℕ) (w : ℕ)
    → IsValid b
    → w ≡ b.writer_index + length xs
    → w ≤ length b.bytes
    → let b' = record (write_data b xs) { writer_index = w } in
      IsValid b' × (contents b' ≡ contents b ++ xs)
unfolding write_data contents
written {b} xs w v e h = (
  omega (arith, length-copy_at b.bytes b.writer_index xs),
  slice-copy_at_end b.bytes xs b.reader_index (b.writer_index - b.reader_index) b.writer_index
      (w - b.reader_index) (omega arith) (omega arith) (omega arith),
)

-- Buffer::append of bytes keeps the invariant of the buffer and puts the bytes behind the
-- contents, whether it finds room, moves the contents or grows the vector, as long as the vector
-- may grow to hold them.
pub append_lem :
    {b : Buffer} (xs : List ℕ)
    → IsValid b
    → b.writer_index + length xs ≤ max_size
    → IsValid (append b xs) × (contents (append b xs) ≡ contents b ++ xs)
unfolding append has_written
append_lem {b} xs v fits = (done.0, done.1 ∙ ap (λ l. l ++ xs) ready.same)
  where
    ready : Ensured b (length xs) (ensure_writable_bytes b (length xs))
    ready = ensure_writable_bytes-Ensured (length xs) v fits

    done :
        let b1 = ensure_writable_bytes b (length xs) in
        let b' = record (write_data b1 xs) {
          writer_index = add_size b1.writer_index (length xs);
        } in
        IsValid b' × (contents b' ≡ contents b1 ++ xs)
    done = written xs _ ready.valid (omega (arith, ready)) (omega (arith, ready))

-- Where the room is there, `append` does not touch the vector's size.
append_in_place :
    {b : Buffer} (xs : List ℕ)
    → IsValid b
    → b.writer_index + length xs ≤ length b.bytes
    → (length (append b xs).bytes ≡ length b.bytes)
      × ((append b xs).writer_index ≡ b.writer_index + length xs)
unfolding append has_written write_data ensure_writable_bytes
append_in_place {b} xs v h =
    ground (arith, writable_bytes_lem v, length-copy_at b.bytes b.writer_index xs)

-- Buffer::prepend puts the bytes before the contents and keeps the invariant, where the
-- prependable bytes are enough.
pub prepend_lem :
    {b : Buffer} (xs : List ℕ)
    → IsValid b
    → length xs ≤ b.reader_index
    → IsValid (prepend b xs) × (contents (prepend b xs) ≡ xs ++ contents b)
unfolding prepend contents
prepend_lem {b} xs v h =
    let e : sub_size r (length xs) ≡ r - length xs = omega arith in
    let e' : w - (r - length xs) ≡ length xs + (w - r) = omega arith in
    let e'' : r - length xs + length xs ≡ r = omega arith in
    rw (e, e')
      (
        omega (arith, length-copy_at bytes (r - length xs) xs),
        slice-copy_at_start bytes xs (r - length xs) (w - r) _ refl (omega arith)
            ∙ ap (λ k. xs ++ slice k (w - r) bytes) e'',
      )
  where
    open b use {bytes, reader_index as r, writer_index as w}

-- Buffer::shrink keeps the contents and the invariant and leaves room for the reserve, for
-- contents below 2 GiB and a vector that may grow to hold both.
pub shrink_lem :
    {b : Buffer} (reserve : ℕ)
    → IsValid b
    → readable_bytes b < 2 ^ 31
    → cheap_prepend + (readable_bytes b + reserve) ≤ max_size
    → IsValid (shrink b reserve)
      × (contents (shrink b reserve) ≡ contents b)
      × (reserve ≤ writable_bytes (shrink b reserve))
unfolding shrink swap
shrink_lem {b} reserve v small fits = (
  done.0,
  done.1 ∙ ap (λ l. l ++ s) (ready.same ∙ start.1) ∙ view,
  omega (arith, place, ready.room, n, e, writable_bytes_lem done.0),
)
  where
    s : List ℕ
    s = to_string_view b

    view : s ≡ contents b
    view = to_string_view_lem v small

    n : length s ≡ readable_bytes b
    n = ap length view ∙ length-contents v

    k : ℕ
    k = add_size (readable_bytes b) reserve

    e : k ≡ readable_bytes b + reserve
    e = omega arith

    start : IsValid (init initial_size) × (contents (init initial_size) ≡ [])
    start = init-IsValid initial_size (omega arith)

    other : Buffer
    other = ensure_writable_bytes (init initial_size) k

    ready : Ensured (init initial_size) k other
    ready =
        ensure_writable_bytes-Ensured k start.0 (omega (arith, init-writer_index initial_size, e))

    done : IsValid (append other s) × (contents (append other s) ≡ contents other ++ s)
    done = append_lem s ready.valid (omega (arith, ready.room, ready.valid, n, e))

    place :
        (length (append other s).bytes ≡ length other.bytes)
        × ((append other s).writer_index ≡ other.writer_index + length s)
    place = append_in_place s ready.valid (omega (arith, ready.room, n, e))

read_fd-fits :
    {b : Buffer} (xs : List ℕ)
    → IsValid b
    → length xs ≤ writable_bytes b
    → let b' = record (write_data b (take (writable_bytes b) xs)) {
      writer_index = add_size b.writer_index (length xs);
    } in
      IsValid b' × (contents b' ≡ contents b ++ xs)
read_fd-fits {b} xs v h =
    rw (take-all (writable_bytes b) xs h)
      (written xs _ v (omega (arith, writable_bytes_lem v)) (omega (arith, writable_bytes_lem v)))

read_fd-overflows :
    {b : Buffer} (xs : List ℕ)
    → IsValid b
    → writable_bytes b < length xs
    → length b.bytes + (length xs - writable_bytes b) ≤ max_size
    → let b' =
        append
          (record (write_data b (take (writable_bytes b) xs)) { writer_index = length b.bytes })
          (drop (writable_bytes b) xs) in
      IsValid b' × (contents b' ≡ contents b ++ xs)
read_fd-overflows {b} xs v h fits = (
  all.0,
  all.1
      ∙ ap (λ l. l ++ rest) full.1
      ∙ append_assoc (contents b) (take n xs) rest
      ∙ ap (λ l. contents b ++ l) (take-append-drop n xs),
)
  where
    n : ℕ
    n = writable_bytes b

    rest : List ℕ
    rest = drop n xs

    filled : Buffer
    filled = record (write_data b (take n xs)) { writer_index = length b.bytes }

    full : IsValid filled × (contents filled ≡ contents b ++ take n xs)
    full =
        written (take n xs) _ v (omega (arith, length-take n xs, writable_bytes_lem v))
          (omega arith)

    all : IsValid (append filled rest) × (contents (append filled rest) ≡ contents filled ++ rest)
    all = append_lem rest full.0 (omega (arith, length-drop n xs))

-- Buffer::readFd appends exactly the bytes that readv stored, in their order, also those that went
-- through extrabuf, and keeps the invariant, where readv stores no more than the areas hold and
-- the vector may grow to hold them.
pub read_fd_lem :
    {b : Buffer} (xs : List ℕ)
    → IsValid b
    → length xs ≤ readv_room b
    → length b.bytes + extra_size ≤ max_size
    → let (b', err) = read_fd b (stored xs) in
      IsValid b' × (contents b' ≡ contents b ++ xs) × (err ≡ none)
unfolding read_fd readv_room
read_fd_lem {b} xs v h fits = elim (Bool-cases (leb (length xs) (writable_bytes b))) [
  | inl fit ↦
      let p = read_fd-fits xs v (leb→le (length xs) (writable_bytes b) fit) in
      rw fit (p.0, p.1, refl)
  | inr over ↦
      let p = read_fd-overflows xs v (ground arith) (ground arith) in rw over (p.0, p.1, refl)
]

-- A failed `readv` leaves the buffer alone and hands its errno on.
pub read_fd_failed : (b : Buffer) (errno : ℕ) → read_fd b (failed errno) ≡ (b, some errno)
unfolding read_fd
read_fd_failed b errno = refl
