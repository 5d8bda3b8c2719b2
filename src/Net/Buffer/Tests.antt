-- ===== src/Net/Buffer/Tests.antt =====
-- Buffers at concrete inputs.
use libeva.Base.{ℕ, ◌≡◌, refl, List, [], ◌∷◌, copy_at, none, arith}
use libeva.Net.Buffer.{
  Buffer, append, prepend, retrieve, read_fd, stored, readv_room, writable_bytes, readable_bytes,
  find_crlf, find_eol, ensure_writable_bytes,
}
use libeva.Net.Buffer.Ints.{
  append_int64, append_int32, append_int8, read_int64, read_int32, read_int8, append_int16,
  read_int16,
}
use libeva.Net.Buffer.Valid.{IsValid, contents, contents-retrieve}
use libeva.Net.Buffer.Space.{Ensured, ensure_writable_bytes-Ensured}
use libeva.Net.Buffer.Append.{append_lem, prepend_lem, read_fd_lem}
use libeva.Net.Buffer.Search.{First, CrlfAt, EolAt, find-First}
use libeva.Net.Buffer.Ints.Trips.{read-append_ints}

-- A vector of 16 bytes that holds "a\r\n" behind the prependable bytes.
abbrev line : Buffer
line = record {
  bytes = 0 ∷ 0 ∷ 0 ∷ 0 ∷ 0 ∷ 0 ∷ 0 ∷ 0 ∷ 97 ∷ 13 ∷ 10 ∷ 0 ∷ 0 ∷ 0 ∷ 0 ∷ 0 ∷ [];
  reader_index = 8;
  writer_index = 11;
}

-- The same with its front two bytes read.
abbrev read_part : Buffer
read_part = record line { reader_index = 10 }

abbrev seven : List ℕ
seven = 1 ∷ 2 ∷ 3 ∷ 4 ∷ 5 ∷ 6 ∷ 7 ∷ []

-- More than fit behind the contents of `line`.
abbrev nine : List ℕ
nine = 8 ∷ 9 ∷ seven

line-IsValid : IsValid line
line-IsValid = omega arith

read_part-IsValid : IsValid read_part
read_part-IsValid = omega arith

append_in_room : contents (append line (1 ∷ 2 ∷ [])) ≡ 97 ∷ 13 ∷ 10 ∷ 1 ∷ 2 ∷ []
unfolding append contents copy_at readable_bytes writable_bytes ensure_writable_bytes
append_in_room = refl

contents-retrieve_example : contents (retrieve line 2) ≡ 10 ∷ []
unfolding contents
contents-retrieve_example = contents-retrieve 2 line-IsValid

append_lem_example :
    IsValid (append line nine) × (contents (append line nine) ≡ 97 ∷ 13 ∷ 10 ∷ nine)
unfolding contents
append_lem_example = append_lem nine line-IsValid (omega arith)

ensure_writable_bytes-Ensured_example : Ensured read_part 6 (ensure_writable_bytes read_part 6)
ensure_writable_bytes-Ensured_example =
    ensure_writable_bytes-Ensured 6 read_part-IsValid (omega arith)

prepend_lem_example :
    IsValid (prepend line (7 ∷ [])) × (contents (prepend line (7 ∷ [])) ≡ 7 ∷ 97 ∷ 13 ∷ 10 ∷ [])
unfolding contents
prepend_lem_example = prepend_lem (7 ∷ []) line-IsValid (omega arith)

read_fd_lem_example :
    let (b', err) = read_fd line (stored seven) in
    IsValid b' × (contents b' ≡ 97 ∷ 13 ∷ 10 ∷ seven) × (err ≡ none)
unfolding contents
read_fd_lem_example =
    read_fd_lem seven line-IsValid (unfold readv_room writable_bytes in omega arith) (omega arith)

find-First_example :
    First (CrlfAt (97 ∷ 13 ∷ 10 ∷ [])) (find_crlf line)
    × First (EolAt (97 ∷ 13 ∷ 10 ∷ [])) (find_eol line)
unfolding contents
find-First_example = find-First line-IsValid

read-append_ints_example :
    let (x', b1) = read_int64 (retrieve (append_int64 line 258) (readable_bytes line)) in
    let (y', b2) = read_int32 (retrieve (append_int32 line 259) (readable_bytes line)) in
    let (w', b3) = read_int16 (retrieve (append_int16 line 260) (readable_bytes line)) in
    let (z', b4) = read_int8 (retrieve (append_int8 line 200) (readable_bytes line)) in
    (x' ≡ 258)
    × (contents b1 ≡ [])
    × (y' ≡ 259)
    × (contents b2 ≡ [])
    × (w' ≡ 260)
    × (contents b3 ≡ [])
    × (z' ≡ 200)
    × (contents b4 ≡ [])
read-append_ints_example =
    read-append_ints 258 259 260 200 line-IsValid (omega arith) (omega arith) (omega arith)
      (omega arith) (omega arith)
