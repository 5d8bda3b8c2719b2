-- ===== src/Memcached/Tests.antt =====
-- Tokens, entries and the store at concrete inputs.
use libeva.Base.{
  ◌%◌, get_elem?, take, ℕ, ◌≡◌, refl, Bool, Option, none, some, List, [], ◌∷◌, ◌++◌, arith,
  replicate, ◌==◌, copy_at, if◌then◌else◌,
}
use libeva.Ds.Sorted.{same}
use libeva.Memcached.Tokenizer.{tokens}
use libeva.Memcached.Tokenizer.Words.{Splits, tokens-Splits}
use libeva.Memcached.Entry.{Entry, key, reset_key_value}
use libeva.Memcached.Entry.Valid.{
  IsEntry, IsEntry-IsSized, keyed, reset_key_value_lem, keyed-IsEntry,
}
use libeva.Memcached.Store.{hash, Store, lt_bytes, set, get, num_shards, num_lists}
use libeva.Memcached.Store.Laws.{ReadsNull, get-set, past_greatest_faults, new_shards-Finds}
use libeva.Ds.HashSet.{HashSet}
use libeva.Ds.HashSet
use libeva.Net.Buffer.{Buffer, readable_bytes, retrieve_all}
use libeva.Net.Buffer.Valid.{IsValid, contents}
use libeva.Memcached.Tokenizer.{has_more_token, next_token, skip, scan}
use libeva.Memcached.Conversation.{
  Connection, Conversation, bytes_token, take_token, atoi, digits, receive_value, receive, sep,
  get_handler, shrink_output, msg_cb,
}
use libeva.Memcached.Conversation.Loop.{Ends, msg_cb-Ends}
use libeva.Memcached.Conversation.Receive.{Ready, Received, receive_lem}
use libeva.Memcached.Conversation.Exchange.{exchange, Answered, exchange-Answers}
use libeva.Memcached.Conversation.Answer.{answer, asked, get_handler_lem, get_handler_overflows}

abbrev space : ℕ → Bool
space c = c == 32

-- "get  k"
abbrev request : List ℕ
request = 103 ∷ 101 ∷ 116 ∷ 32 ∷ 32 ∷ 107 ∷ []

tokens-Splits_example : Splits space request (tokens space 7 request)
tokens-Splits_example = tokens-Splits space 7 request (omega arith)

-- The key "k" with room for four bytes.
abbrev item : Entry
item = keyed (0 ∷ 0 ∷ 0 ∷ 0 ∷ 0 ∷ []) (107 ∷ []) 4

item-IsEntry : IsEntry item
item-IsEntry = keyed-IsEntry (0 ∷ 0 ∷ 0 ∷ 0 ∷ 0 ∷ []) (107 ∷ []) 4 (omega arith) (omega arith)

reset_key_value_lem_example :
    (reset_key_value item (97 ∷ 98 ∷ []) 8 ≡ some (keyed (replicate 10 0) (97 ∷ 98 ∷ []) 8))
    × IsEntry (keyed (replicate 10 0) (97 ∷ 98 ∷ []) 8)
reset_key_value_lem_example =
    reset_key_value_lem item (97 ∷ 98 ∷ []) 8 (IsEntry-IsSized item-IsEntry) (omega arith)

abbrev greatest : Entry
greatest = keyed (0 ∷ 0 ∷ []) (122 ∷ 122 ∷ []) 0

abbrev new_store : Store
new_store = record { shards = replicate num_shards (HashSet.init num_lists none (some greatest)) }

abbrev nothing : List ℕ → Option Entry
nothing k = none

get-set_example :
    (s' : Store) × (set new_store item ≡ some s')
    × (get s' item
        ≡ (if same lt_bytes (key item) (key item) then some (some item) else get new_store item))
unfolding key lt_bytes copy_at
get-set_example =
    get-set greatest new_store nothing item item (new_shards-Finds greatest) refl refl refl refl

past_greatest_faults_example :
    ((s' : HashSet (Option Entry)) × (get_elem? new_store.shards
          (hash (some (keyed (0 ∷ []) (123 ∷ []) 0)) % num_shards)
        ≡ some s')
      × ReadsNull (keyed (0 ∷ []) (123 ∷ []) 0) s')
    × (set new_store (keyed (0 ∷ []) (123 ∷ []) 0) ≡ none)
    × (get new_store (keyed (0 ∷ []) (123 ∷ []) 0) ≡ none)
unfolding key lt_bytes copy_at
past_greatest_faults_example =
    past_greatest_faults greatest new_store nothing (keyed (0 ∷ []) (123 ∷ []) 0)
      (new_shards-Finds greatest) refl

-- A connection that keeps what it was sent, and its output buffer.
abbrev log : Connection (List ℕ × Buffer)
log = record {
  send = λ c msg. (c.0 ++ msg, c.1);
  send_buffer = λ c out. ((c.0 ++ contents out, c.1), retrieve_all out);
  output_buffer = λ c. c.1;
  set_output_buffer = λ c b. (c.0, b);
}

-- "ab" behind the prependable bytes.
abbrev two_bytes : Buffer
two_bytes = record {
  bytes = 0 ∷ 0 ∷ 0 ∷ 0 ∷ 0 ∷ 0 ∷ 0 ∷ 0 ∷ 97 ∷ 98 ∷ [];
  reader_index = 8;
  writer_index = 10;
}

two_bytes-IsValid : IsValid two_bytes
two_bytes-IsValid = omega arith

-- A conversation that waits for the four bytes of `item`.
abbrev waiting : Conversation (List ℕ × Buffer)
waiting = record {
  conn = ([], two_bytes);
  store = new_store;
  curr_entry = item;
  command = [];
  state = receive_value;
  output_buf = two_bytes;
}

waiting-Ready : Ready log greatest waiting nothing
unfolding key lt_bytes copy_at
waiting-Ready = record { entry = item-IsEntry; finds = new_shards-Finds greatest; fits = refl }

receive_lem_example :
    (w' : Conversation (List ℕ × Buffer)) × (buf' : Buffer) × (receive log waiting two_bytes
      ≡ some (w', buf'))
    × Received log greatest waiting nothing two_bytes 2 w' buf'
unfolding readable_bytes
receive_lem_example =
    receive_lem log greatest waiting nothing two_bytes two_bytes-IsValid waiting-Ready

-- " k"
abbrev query : List ℕ
query = 32 ∷ 107 ∷ []

query_first : next_token sep query ≡ (107 ∷ [], [])
unfolding next_token skip scan
query_first = refl

abbrev nothing_found : Buffer
nothing_found = answer log waiting query [] 107 [] query_first none

get_handler_lem_example :
    (get_handler log waiting query
      ≡ some (record waiting {
        conn = (log.send_buffer (shrink_output log waiting.conn nothing_found) nothing_found).0;
        curr_entry = asked log waiting query [] 107 [] query_first;
        output_buf =
            (log.send_buffer (shrink_output log waiting.conn nothing_found) nothing_found).1;
      }))
    × IsEntry (asked log waiting query [] 107 [] query_first)
unfolding key lt_bytes copy_at
get_handler_lem_example =
    get_handler_lem log waiting query [] 107 [] query_first greatest nothing
      (IsEntry-IsSized item-IsEntry) (new_shards-Finds greatest) (omega arith) refl

-- " k 0 0 2"
abbrev set_two : List ℕ
set_two = 32 ∷ 107 ∷ 32 ∷ 48 ∷ 32 ∷ 48 ∷ 32 ∷ 50 ∷ []

set_two_first : next_token sep set_two ≡ (107 ∷ [], 32 ∷ 48 ∷ 32 ∷ 48 ∷ 32 ∷ 50 ∷ [])
unfolding next_token skip scan
set_two_first = refl

set_two_fourth : bytes_token (32 ∷ 48 ∷ 32 ∷ 48 ∷ 32 ∷ 50 ∷ []) ≡ some (50 ∷ [])
unfolding bytes_token take_token has_more_token next_token skip scan
set_two_fourth = refl

two_asked : atoi (50 ∷ 13 ∷ 10 ∷ []) ≡ 2
unfolding atoi digits
two_asked = refl

exchange-Answers_example :
    Answered log waiting.conn two_bytes
      (107 ∷ [])
      (take (atoi (50 ∷ 13 ∷ 10 ∷ [])) (contents two_bytes))
      (exchange log waiting set_two (13 ∷ 10 ∷ []) two_bytes query)
unfolding lt_bytes key copy_at
exchange-Answers_example =
    exchange-Answers log waiting (IsEntry-IsSized item-IsEntry) set_two (13 ∷ 10 ∷ []) _ (50 ∷ [])
      107 [] set_two_first set_two_fourth (omega (arith, two_asked)) (omega (arith, two_asked))
      (omega arith) greatest nothing (new_shards-Finds greatest) refl two_bytes two_bytes-IsValid
      query [] query_first

abbrev long_key : List ℕ
long_key = 2 ∷ 3 ∷ 4 ∷ 5 ∷ 6 ∷ []

long_first : next_token sep (1 ∷ long_key) ≡ (1 ∷ long_key, [])
unfolding next_token skip scan
long_first = refl

get_handler_overflows_example : get_handler log waiting (1 ∷ long_key) ≡ none
unfolding copy_at
get_handler_overflows_example =
    get_handler_overflows log waiting (1 ∷ long_key) [] 1 long_key long_first (omega arith)
      (omega arith)

msg_cb-Ends_example : Ends log (msg_cb log 6 waiting two_bytes)
unfolding readable_bytes
msg_cb-Ends_example =
    msg_cb-Ends log 6 waiting two_bytes two_bytes-IsValid tt (omega arith) (omega arith)
