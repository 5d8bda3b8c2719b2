-- ===== src/Memcached/Conversation.antt =====
-- minimemcached/Conversation.h and Conversation.cc: the conversation with one client. The state is
-- that of the conversation, its connection and the server's store. `none` is a fault of what it
-- calls. What the code prints on its own terminal is left out, and so is `sleep`.
pub mod Receive
pub mod Answer
pub mod Exchange
pub mod Loop
use libeva.Base.{
  ◌++◌, drop, ℕ, zero, suc, ◌+◌, ◌-◌, ◌*◌, ◌%◌, ◌^◌, Bool, true, false, not, ◌&&◌, ◌||◌, Option,
  none, some, List, [], ◌∷◌, ltb, leb, ◌==◌, if◌then◌else◌, length, int_of_size, size_of_int,
  add_size, min,
}
use libeva.Ds.LazyList.{◌>>=◌}
use libeva.Net.Buffer.{Buffer, readable_bytes, writable_bytes, peek, find_crlf, find_eol, shrink}
use libeva.Net.Buffer
use libeva.Memcached.Tokenizer.{has_more_token, next_token}
use libeva.Memcached.Entry.{
  Entry, add_int, lt_int, reset_key, reset_key_value, clone, num_free, copy_to_buffer, reset,
}
use libeva.Memcached.Entry
use libeva.Memcached.Store.{Store, set, get}

-- What a conversation uses of its connection: `send` of bytes, `send` of a buffer, which empties
-- it, and `outputBuffer()`.
pub record Connection (C : Type 0) : Type 0 where
  pub send : C → List ℕ → C
  pub send_buffer : C → Buffer → C × Buffer
  pub output_buffer : C → Buffer
  pub set_output_buffer : C → Buffer → C

pub data State : Type 0 where
  new_command : State
  receive_value : State
  discard_value : State

pub record Conversation (C : Type 0) : Type 0 where
  pub conn : C
  pub store : Store
  pub curr_entry : Entry
  pub command : List ℕ
  pub state : State
  pub output_buf : Buffer

abbrev pub eq_bytes : List ℕ → List ℕ → Bool
eq_bytes [] [] = true
eq_bytes [] (y ∷ ys) = false
eq_bytes (x ∷ xs) [] = false
eq_bytes (x ∷ xs) (y ∷ ys) = (x == y) && eq_bytes xs ys

-- `ch == ' '`
abbrev pub sep : ℕ → Bool
sep ch = ch == b' '

unfoldable pub digits : ℕ → List ℕ → ℕ
digits acc [] = acc
digits acc (c ∷ rest) =
    let more = digits (acc * 10 + (c - b'0')) rest in if leb b'0' c && leb c b'9' then more else acc

-- The low 32 bits of a long, which saturates.
abbrev long_bits : Bool → ℕ → ℕ
long_bits false n = min n (2 ^ 63 - 1) % 2 ^ 32
long_bits true n = (2 ^ 64 - min n (2 ^ 63)) % 2 ^ 32

-- `atoi`: white space, a sign, and digits up to the first character that is none, or to the end of
-- the vector that the text stands in.
unfoldable pub atoi : List ℕ → ℕ
unfolding digits
atoi [] = 0
atoi (c ∷ rest) =
    let skipped = atoi rest in
    if (c == 32) || (leb 9 c && leb c 13)
    then skipped
    else (if c == b'-'
        then long_bits true (digits 0 rest)
        else if c == b'+'
        then long_bits false (digits 0 rest)
        else long_bits false (digits 0 (c ∷ rest)))

-- `hasMoreToken`, and `nextToken` if there is one.
unfoldable pub take_token : List ℕ → Option (List ℕ × List ℕ)
take_token t =
    let (more, t') = has_more_token sep t in if more then some (next_token sep t') else none

-- The flags and the time are passed over; the text from the first character of the token on, which
-- `bytes.data()` points to.
unfoldable pub bytes_token : List ℕ → Option (List ℕ)
unfolding take_token
bytes_token left = do
  flags ← take_token left
  time ← take_token flags.1
  bytes ← take_token time.1
  some (bytes.0 ++ bytes.1)

-- The answers, as bytes.
abbrev error_line : List ℕ
error_line = b'E' ∷ b'r' ∷ b'r' ∷ b'o' ∷ b'r' ∷ b'\r' ∷ b'\n' ∷ []

abbrev pub end_line : List ℕ
end_line = b'E' ∷ b'N' ∷ b'D' ∷ b'\r' ∷ b'\n' ∷ []

abbrev pub stored_line : List ℕ
stored_line = b'S' ∷ b'T' ∷ b'O' ∷ b'R' ∷ b'E' ∷ b'D' ∷ b'\r' ∷ b'\n' ∷ []

abbrev invalid_line : List ℕ
invalid_line =
    b'I' ∷ b'n' ∷ b'v' ∷ b'a' ∷ b'l' ∷ b'i' ∷ b'd' ∷ b' ' ∷ b'c' ∷ b'o' ∷ b'm' ∷ b'm' ∷ b'a' ∷ b'n'
    ∷ b'd' ∷ b':' ∷ b'[' ∷ b'%' ∷ b's' ∷ b']' ∷ b'\r' ∷ b'\n' ∷ []

abbrev pub copy_found : Option Entry → Buffer → Buffer
copy_found none out = out
copy_found (some e) out = copy_to_buffer e out

module _ {C : Type 0} (N : Connection C) where
  pub reply : Conversation C → List ℕ → Conversation C
  reply w msg = record w { conn = N.send w.conn msg }

  send_tokens : ℕ → C → List ℕ → C
  send_tokens zero c t = c
  send_tokens (suc fuel) c t =
      let (more, t') = has_more_token sep t in
      let (token, left) = next_token sep t' in
      elim more [ true ↦ send_tokens fuel (N.send (N.send c token) (b' ' ∷ [])) left | false ↦ c ]

  -- `TestHandler`; a token has a character, so the rounds are no more than the characters.
  pub test_handler : Conversation C → List ℕ → Conversation C
  unfolding send_tokens
  test_handler w tokenizer = record w {
    conn = N.send (send_tokens (suc (length tokenizer)) w.conn tokenizer) (b'\r' ∷ b'\n' ∷ []);
  }

  -- The output buffer of the connection is shrunk when it has much room.
  pub shrink_output : C → Buffer → C
  shrink_output c out =
      let limit = add_size 65536 (readable_bytes out) in
      if ltb limit (writable_bytes (N.output_buffer c))
      then N.set_output_buffer c (shrink (N.output_buffer c) limit)
      else c

  pub get_handler : Conversation C → List ℕ → Option (Conversation C)
  unfolding shrink_output
  get_handler w tokenizer =
      let (token, left) = next_token sep tokenizer in
      elim token [
        | [] ↦ some w
        | c ∷ cs ↦ do
          curr ← reset_key w.curr_entry (c ∷ cs)
          entry ← get w.store curr
          let out = Buffer.append (copy_found entry w.output_buf) end_line
          let sent = N.send_buffer (shrink_output w.conn out) out
          some (record w { conn = sent.0; curr_entry = curr; output_buf = sent.1 })
      ]

  -- `SetHandler` once it has the text of the number of bytes.
  pub await_value : Conversation C → List ℕ → List ℕ → Option (Conversation C)
  await_value w token bytes =
      let num_bytes = atoi bytes in
      if not (lt_int 0 num_bytes) || lt_int 1024 num_bytes then some w else do
        curr ← reset_key_value w.curr_entry token num_bytes
        some (record w { curr_entry = curr; state = receive_value })

  -- `after` is what stands behind the request in the vector of the buffer.
  pub set_handler : Conversation C → List ℕ → List ℕ → Option (Conversation C)
  unfolding bytes_token await_value
  set_handler w tokenizer after =
      let (token, left) = next_token sep tokenizer in
      elim (bytes_token left) [
        | none ↦ some (record w { state = new_command })
        | some bytes ↦ await_value w token (bytes ++ after)
      ]

  -- `controller_.find( command_ )`, and the handler that it finds.
  pub handle_command : Conversation C → List ℕ → List ℕ → Option (Conversation C)
  unfolding reply test_handler get_handler set_handler
  handle_command w req after =
      let (more, t) = has_more_token sep req in
      let (command, rest) = next_token sep t in
      let w' = record w { command = command } in
      if not more
      then some (reply w error_line)
      else (if eq_bytes command (b'T' ∷ b'e' ∷ b's' ∷ b't' ∷ [])
          then some (test_handler w' rest)
          else if eq_bytes command (b'g' ∷ b'e' ∷ b't' ∷ [])
          then get_handler w' rest
          else if eq_bytes command (b's' ∷ b'e' ∷ b't' ∷ [])
          then set_handler w' rest after
          else some (reply w' invalid_line))

  pub reset_request : Conversation C → Conversation C
  reset_request w = record w { command = []; curr_entry = reset w.curr_entry }

  pub receive : Conversation C → Buffer → Option (Conversation C × Buffer)
  unfolding reply reset_request
  receive w buf = do
    let num_bytes = min (readable_bytes buf) (num_free w.curr_entry)
    curr ← Entry.append w.curr_entry (peek buf num_bytes)
    entry ← clone curr.block curr.key_len curr.value_len (int_of_size (num_free curr))
    store ← set w.store entry
    let w' = reply (record w { curr_entry = curr; store = store }) stored_line
    some (reset_request (record w' { state = new_command }), Buffer.retrieve buf num_bytes)

  -- A line of `len` bytes, of which an int is made, and its end of `gap` bytes.
  pub handle_line : Conversation C → Buffer → ℕ → ℕ → Option (Conversation C × Buffer)
  unfolding handle_command
  handle_line w buf at gap =
      let len = int_of_size at in
      let rest = Buffer.retrieve buf (size_of_int (add_int len gap)) in
      if len == 0 then some (w, rest) else do
        let after = drop (buf.reader_index + size_of_int len) buf.bytes
        w' ← handle_command w (peek buf (size_of_int len)) after
        some (w', rest)

  -- One round of the loop of `msgCb`; none where it breaks off.
  pub round : Conversation C → Buffer → Option (Option (Conversation C × Buffer))
  unfolding handle_line receive
  round w buf = elim w.state [
    | new_command ↦ elim (find_crlf buf) [
      | some at ↦ do r ← handle_line w buf at 2; some (some r)
      | none ↦ elim (find_eol buf) [
        | some at ↦ do r ← handle_line w buf at 1; some (some r)
        | none ↦ some none
      ]
    ]
    | receive_value ↦ do r ← receive w buf; some (some r)
    | discard_value ↦ some (some (w, buf))
  ]

  -- The loop of `msgCb`, on fuel. The Boolean says whether the loop has ended.
  pub msg_cb : ℕ → Conversation C → Buffer → Option (Conversation C × Buffer × Bool)
  unfolding round
  msg_cb zero w buf = some (w, buf, false)
  msg_cb (suc fuel) w buf =
      if ltb 0 (readable_bytes buf)
      then (do
        next ← round w buf
        elim next [ none ↦ some (w, buf, true) | some r ↦ msg_cb fuel r.0 r.1 ])
      else some (w, buf, true)
