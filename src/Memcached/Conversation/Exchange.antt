-- ===== src/Memcached/Conversation/Exchange.antt =====
-- A whole exchange: `set`, its value, and `get`.
use libeva.Base.{
  ℕ, ◌+◌, ◌≤◌, ◌<◌, ◌^◌, ◌≡◌, refl, sym, ap, subst, ap₂, ◌∙◌, true, Option, some, List, ◌∷◌, ◌++◌,
  arith, length, take, take-min, lt→ltb, le→ltb, if◌then◌else◌, min,
}
use libeva.Ds.LazyList.{◌>>=◌}
use libeva.Ds.Sorted.{same}
use libeva.Net.Buffer.{Buffer, append}
use libeva.Net.Buffer.Valid.{IsValid, contents, length-contents}
use libeva.Memcached.Tokenizer.{next_token}
use libeva.Memcached.Entry.{Entry, key, value, copy_to_buffer}
use libeva.Memcached.Entry.Valid.{
  IsEntry, IsSized, length-room_for, keyed, key-keyed, value-keyed, room_for, reset_key_value_lem,
  lt_int_small,
}
use libeva.Memcached.Store.{lt_bytes}
use libeva.Memcached.Store.Order.{same_refl}
use libeva.Memcached.Store.Laws.{Finds}
use libeva.Memcached.Conversation.{
  Connection, Conversation, sep, atoi, bytes_token, receive_value, set_handler, await_value,
  receive, get_handler, shrink_output, stored_line, end_line,
}
use libeva.Memcached.Conversation.Receive.{Ready, receive_lem, taken, total}
use libeva.Memcached.Conversation.Answer.{answer, get_handler_lem}

module _ {C : Type 0} (N : Connection C) where
  -- The calls for the request of a `set`, with what stands behind it in the buffer's vector, its value,
  -- and the request of a `get`.
  abbrev pub exchange : Conversation C → List ℕ → List ℕ → Buffer → List ℕ → Option (Conversation C)
  exchange w text after buf query = do
    w1 ← set_handler N w text after
    r ← receive N w1 buf
    get_handler N r.0 query

  -- What a connection with this output is sent for both.
  abbrev sent : C → Buffer → Entry → C
  sent conn out stored =
      let found = append (copy_to_buffer stored out) end_line in
      (N.send_buffer (shrink_output N (N.send conn stored_line) found) found).0

  -- An entry with this key and value was stored and sent.
  abbrev pub Answered : C → Buffer → List ℕ → List ℕ → Option (Conversation C) → Type 0
  Answered conn out k xs r =
      (stored : Entry) × (w' : Conversation C) × (r ≡ some w')
      × (key stored ≡ k)
      × (value stored ≡ xs)
      × (w'.conn ≡ sent conn out stored)

module _ {C : Type 0} (N : Connection C) (w : Conversation C) (v : IsSized w.curr_entry)
    (text after left bytes : List ℕ) (c : ℕ) (cs : List ℕ)
    (first : next_token sep text ≡ (c ∷ cs, left)) (fourth : bytes_token left ≡ some bytes)
    (some_bytes : 0 < atoi (bytes ++ after)) (few_bytes : atoi (bytes ++ after) ≤ 1024)
    (short : length (c ∷ cs) + 1024 < 2 ^ 31) where
  abbrev key_of : List ℕ
  key_of = c ∷ cs

  -- The current entry that waits for the value.
  abbrev pub awaiting : Conversation C
  awaiting = record w {
    curr_entry =
        keyed (room_for w.curr_entry key_of (atoi (bytes ++ after))) key_of (atoi (bytes ++ after));
    state = receive_value;
  }

  await_value_lem :
      (await_value N w key_of (bytes ++ after) ≡ some awaiting) × IsEntry awaiting.curr_entry
  unfolding await_value
  await_value_lem =
      let (q, ve) =
        reset_key_value_lem w.curr_entry key_of (atoi (bytes ++ after)) v (omega arith) in
      (
        rw
            (
              lt_int_small 0 (atoi (bytes ++ after)) (omega arith) (omega arith),
              lt_int_small 1024 (atoi (bytes ++ after)) (omega arith) (omega arith),
              lt→ltb 0 (atoi (bytes ++ after)) some_bytes,
              le→ltb 1024 (atoi (bytes ++ after)) few_bytes,
              q,
            )
            refl,
        ve,
      )

  set_handler_lem : (set_handler N w text after ≡ some awaiting) × IsEntry awaiting.curr_entry
  unfolding set_handler
  set_handler_lem =
      let (q, ve) = await_value_lem in (rw (first, set_handler) (rw fourth (rw first q)), ve)

  module _ (greatest : Entry) (g : List ℕ → Option Entry) (f : Finds greatest w.store g)
      (below : lt_bytes (c ∷ cs) (key greatest) ≡ true) (buf : Buffer) (vb : IsValid buf)
      (query rest : List ℕ) (asks : next_token sep query ≡ (c ∷ cs, rest)) where
    -- `get` once the entry is stored under its key.
    get_stored :
        (w2 : Conversation C) (stored : Entry)
        → key stored ≡ c ∷ cs
        → IsSized w2.curr_entry
        → length (c ∷ cs) ≤ total w2
        → Finds greatest w2.store (λ j. if same lt_bytes (key stored) j then some stored else g j)
        → w2.conn ≡ N.send w.conn stored_line
        → w2.output_buf ≡ w.output_buf
        → (w3 : Conversation C) × (get_handler N w2 query ≡ some w3)
          × (w3.conn ≡ sent N w.conn w.output_buf stored)
    get_stored w2 stored k v2 room finds conn out =
        let (q, v3) = get_handler_lem N w2 query rest c cs asks greatest _ v2 finds room below in
        let hit : same lt_bytes (key stored) key_of ≡ true =
          ap (λ j. same lt_bytes j key_of) k ∙ same_refl key_of in
        let it : answer N w2 query rest c cs asks
              (if same lt_bytes (key stored) key_of then some stored else g key_of)
            ≡ append (copy_to_buffer stored w.output_buf) end_line =
          rw hit (ap (λ b. append (copy_to_buffer stored b) end_line) out) in
        (_, q, ap₂ (λ d a. (N.send_buffer (shrink_output N d a) a).0) conn it)

    -- Where the current entry lies in its block, the store finds what `g` gives, and the request of
    -- `set` has a key below the greatest and a fourth word, from which on atoi reads a number from 1
    -- to 1024,
    -- SetHandler, receiveValue on a valid buffer, and GetHandler of the same key return: an entry of
    -- this key is stored, its value is that many bytes of the buffer, or all there are if these are
    -- fewer, and the connection is sent STORED, then this entry and the end.
    pub exchange-Answers :
        Answered N w.conn w.output_buf
          (c ∷ cs)
          (take (atoi (bytes ++ after)) (contents buf))
          (exchange N w text after buf query)
    exchange-Answers =
        let n = atoi (bytes ++ after) in
        let (q1, ve) = set_handler_lem in
        let room = length-room_for w.curr_entry key_of n v (omega arith) in
        let k : key awaiting.curr_entry ≡ key_of =
          key-keyed (room_for w.curr_entry key_of n) key_of n (omega (arith, room.0))
            (omega arith) in
        let ready : Ready N greatest awaiting g = record {
          entry = ve;
          finds = f;
          fits = subst (λ x. lt_bytes x (key greatest) ≡ true) (sym k) below;
        } in
        let (w2, buf2, q2, got) = receive_lem N greatest awaiting g buf vb ready in
        let (w3, q3, conn) =
          get_stored w2 got.stored (got.same_key ∙ k) got.sized (omega (arith, got.same_total))
            got.finds got.answered got.same_output in
        (
          got.stored,
          w3,
          rw q1 (rw q2 q3),
          got.same_key ∙ k,
          got.same_value
              ∙ ap (λ x. x ++ take (taken N greatest awaiting g buf vb ready) (contents buf))
                  (value-keyed (room_for w.curr_entry key_of n) key_of n)
              ∙ ap (λ r. take (min r n) (contents buf)) (sym (length-contents vb))
              ∙ take-min n (contents buf),
          conn,
        )
