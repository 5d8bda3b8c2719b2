-- ===== src/Net/Buffer/Ints.antt =====
-- The integers of Buffer.h in network order. An int64_t is its 64-bit pattern, and so on.
pub mod Trips
use libeva.Base.{ℕ}
use libeva.Net.Endian.{le_bytes, of_le, swap_bytes}
use libeva.Net.Buffer.{Buffer, append, prepend, peek, retrieve}

pub append_int64 : Buffer → ℕ → Buffer
append_int64 b x = append b (le_bytes 8 (swap_bytes 8 x))

pub append_int32 : Buffer → ℕ → Buffer
append_int32 b x = append b (le_bytes 4 (swap_bytes 4 x))

pub append_int16 : Buffer → ℕ → Buffer
append_int16 b x = append b (le_bytes 2 (swap_bytes 2 x))

pub append_int8 : Buffer → ℕ → Buffer
append_int8 b x = append b (le_bytes 1 x)

pub peek_int64 : Buffer → ℕ
peek_int64 b = swap_bytes 8 (of_le (peek b 8))

pub peek_int32 : Buffer → ℕ
peek_int32 b = swap_bytes 4 (of_le (peek b 4))

pub peek_int16 : Buffer → ℕ
peek_int16 b = swap_bytes 2 (of_le (peek b 2))

pub peek_int8 : Buffer → ℕ
peek_int8 b = of_le (peek b 1)

pub retrieve_int64 : Buffer → Buffer
retrieve_int64 b = retrieve b 8

pub retrieve_int32 : Buffer → Buffer
retrieve_int32 b = retrieve b 4

pub retrieve_int16 : Buffer → Buffer
retrieve_int16 b = retrieve b 2

pub retrieve_int8 : Buffer → Buffer
retrieve_int8 b = retrieve b 1

pub read_int64 : Buffer → ℕ × Buffer
unfolding retrieve_int64
read_int64 b = (peek_int64 b, retrieve_int64 b)

pub read_int32 : Buffer → ℕ × Buffer
unfolding retrieve_int32
read_int32 b = (peek_int32 b, retrieve_int32 b)

pub read_int16 : Buffer → ℕ × Buffer
unfolding retrieve_int16
read_int16 b = (peek_int16 b, retrieve_int16 b)

pub read_int8 : Buffer → ℕ × Buffer
unfolding retrieve_int8
read_int8 b = (peek_int8 b, retrieve_int8 b)

pub prepend_int64 : Buffer → ℕ → Buffer
prepend_int64 b x = prepend b (le_bytes 8 (swap_bytes 8 x))

pub prepend_int32 : Buffer → ℕ → Buffer
prepend_int32 b x = prepend b (le_bytes 4 (swap_bytes 4 x))

pub prepend_int16 : Buffer → ℕ → Buffer
prepend_int16 b x = prepend b (le_bytes 2 (swap_bytes 2 x))

pub prepend_int8 : Buffer → ℕ → Buffer
prepend_int8 b x = prepend b (le_bytes 1 x)
