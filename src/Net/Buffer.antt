-- ===== src/Net/Buffer.antt =====
-- libeva/Net/Buffer.h and Buffer.cc: a byte buffer with a read end and a write end.
-- `bytes` is the vector buffer_, and a pointer into it is an index of it. The release build defines
-- NDEBUG, so an assert does nothing: what it states is a hypothesis of the theorems that need it.
pub mod Valid
pub mod Space
pub mod Append
pub mod Ints
pub mod Search
mod Tests
use libeva.Base.{
  ℕ, suc, ◌+◌, ◌-◌, ◌==◌, List, [], ◌∷◌, ◌++◌, Option, none, some, ltb, leb, if◌then◌else◌, ◌&&◌,
  length, take, drop, replicate, slice, copy_at, add_size, sub_size, int_of_size, size_of_int,
}
use mathlib.Core.Option

pub record Buffer : Type 0 where
  pub bytes : List ℕ
  pub reader_index : ℕ
  pub writer_index : ℕ

abbrev pub cheap_prepend : ℕ
cheap_prepend = 8

abbrev pub initial_size : ℕ
initial_size = 1024

pub init : ℕ → Buffer
init size = record {
  bytes = replicate (cheap_prepend + size) 0;
  reader_index = cheap_prepend;
  writer_index = cheap_prepend;
}

pub swap : Buffer → Buffer → Buffer × Buffer
swap b rhs = (rhs, b)

unfoldable pub readable_bytes : Buffer → ℕ
readable_bytes b = sub_size b.writer_index b.reader_index

pub writable_bytes : Buffer → ℕ
writable_bytes b = sub_size (length b.bytes) b.writer_index

pub prependable_bytes : Buffer → ℕ
prependable_bytes b = b.reader_index

-- The `n` bytes from `peek()` on.
pub peek : Buffer → ℕ → List ℕ
peek b n = slice b.reader_index n b.bytes

pub to_string_view : Buffer → List ℕ
unfolding peek
to_string_view b = peek b (size_of_int (int_of_size (readable_bytes b)))

-- `std::search` for "\r\n": the place of the first one, or none where it returns the end.
pub search_crlf : List ℕ → Option ℕ
search_crlf [] = none
search_crlf (c ∷ []) = none
search_crlf (c ∷ d ∷ rest) =
    if (c == b'\r') && (d == b'\n') then some 0 else Option.map suc (search_crlf (d ∷ rest))

-- `memchr` for '\n'.
pub search_eol : List ℕ → Option ℕ
search_eol [] = none
search_eol (c ∷ rest) = if c == b'\n' then some 0 else Option.map suc (search_eol rest)

-- Offsets from `peek()`.
pub find_crlf : Buffer → Option ℕ
unfolding peek
find_crlf b = search_crlf (peek b (readable_bytes b))

pub find_eol : Buffer → Option ℕ
unfolding peek
find_eol b = search_eol (peek b (readable_bytes b))

-- The same from the index `start` of the vector on; the result is an offset from `start`.
pub find_crlf_from : Buffer → ℕ → Option ℕ
find_crlf_from b start = search_crlf (slice start (sub_size b.writer_index start) b.bytes)

pub find_eol_from : Buffer → ℕ → Option ℕ
find_eol_from b start = search_eol (slice start (sub_size b.writer_index start) b.bytes)

pub retrieve_all : Buffer → Buffer
retrieve_all b = record b { reader_index = cheap_prepend; writer_index = cheap_prepend }

pub retrieve : Buffer → ℕ → Buffer
retrieve b len =
    if ltb len (readable_bytes b)
    then record b { reader_index = add_size b.reader_index len }
    else retrieve_all b

-- `end` is an index of the vector.
pub retrieve_until : Buffer → ℕ → Buffer
retrieve_until b end = retrieve b (sub_size end b.reader_index)

pub retrieve_as_string : Buffer → ℕ → List ℕ × Buffer
retrieve_as_string b len = (peek b len, retrieve b len)

pub retrieve_all_as_string : Buffer → List ℕ × Buffer
unfolding retrieve_as_string
retrieve_all_as_string b = retrieve_as_string b (readable_bytes b)

pub has_written : Buffer → ℕ → Buffer
has_written b len = record b { writer_index = add_size b.writer_index len }

pub unwrite : Buffer → ℕ → Buffer
unwrite b len = record b { writer_index = sub_size b.writer_index len }

-- `vector::resize`: new bytes are 0.
abbrev pub resize : List ℕ → ℕ → List ℕ
resize xs n = take n xs ++ replicate (n - length xs) 0

-- Grows the vector, or moves the readable bytes to the front.
pub make_space : Buffer → ℕ → Buffer
make_space b len =
    if ltb (add_size (writable_bytes b) (prependable_bytes b)) (add_size len cheap_prepend)
    then record b { bytes = resize b.bytes (add_size b.writer_index len) }
    else record {
      bytes = copy_at b.bytes cheap_prepend (peek b (readable_bytes b));
      reader_index = cheap_prepend;
      writer_index = add_size cheap_prepend (readable_bytes b);
    }

pub ensure_writable_bytes : Buffer → ℕ → Buffer
ensure_writable_bytes b len = if ltb (writable_bytes b) len then make_space b len else b

-- `std::copy(data, data+len, beginWrite())`
write_data : Buffer → List ℕ → Buffer
write_data b data' = record b { bytes = copy_at b.bytes b.writer_index data' }

pub append : Buffer → List ℕ → Buffer
unfolding write_data has_written
append b data' =
    has_written (write_data (ensure_writable_bytes b (length data')) data') (length data')

pub prepend : Buffer → List ℕ → Buffer
prepend b data' =
    let reader = sub_size b.reader_index (length data') in
    record b { bytes = copy_at b.bytes reader data'; reader_index = reader }

pub shrink : Buffer → ℕ → Buffer
unfolding swap
shrink b reserve =
    let other = ensure_writable_bytes (init initial_size) (add_size (readable_bytes b) reserve) in
    (swap b (append other (to_string_view b))).0

-- The result of `::readv`: the bytes that it stored, or errno.
pub data Readv : Type 0 where
  stored : List ℕ → Readv
  failed : ℕ → Readv

abbrev pub extra_size : ℕ
extra_size = 65536

-- The bytes that the two areas of the iovec hold, or the first alone (iovcnt).
pub readv_room : Buffer → ℕ
readv_room b =
    let writable = writable_bytes b in
    if ltb writable extra_size then writable + extra_size else writable

-- `readv` fills the writable bytes first, then extrabuf. The option is what goes to savedErr.
pub read_fd : Buffer → Readv → Buffer × Option ℕ
unfolding write_data
read_fd b (failed errno) = (b, some errno)
read_fd b (stored xs) =
    let writable = writable_bytes b in
    let filled = write_data b (take writable xs) in
    if leb (length xs) writable
    then (record filled { writer_index = add_size b.writer_index (length xs) }, none)
    else (append (record filled { writer_index = length b.bytes }) (drop writable xs), none)
