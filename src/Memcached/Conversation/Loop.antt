-- ===== src/Memcached/Conversation/Loop.antt =====
-- The loop of `msgCb` ends.
use libeva.Base.{
  drop, ℕ, zero, suc, ◌+◌, ◌*◌, ◌-◌, ◌≤◌, ◌<◌, ◌^◌, ◌≡◌, refl, sym, ap, subst, ◌∙◌, inl, inr, Bool,
  true, Option, none, some, List, arith, length, Bool-cases, length-drop, ltb, size_of_int,
  int_of_size, min, ◌==◌, Option-cases,
}
use libeva.Net.Buffer.{Buffer, readable_bytes, find_crlf, find_eol, peek, search_crlf, search_eol}
use libeva.Net.Buffer
use libeva.Net.Buffer.Valid.{
  IsValid, contents, length-contents, contents-retrieve, retrieve-IsValid,
}
use libeva.Ds.LazyList.{◌>>=◌}
use libeva.Net.Buffer.Search.{Within, search_crlf-Within, search_eol-Within, find_lem}
use libeva.Memcached.Entry.{add_int, num_free}
use libeva.Memcached.Conversation.{
  Connection, Conversation, State, new_command, receive_value, discard_value, handle_command, round,
  msg_cb, receive, set_handler, get_handler, test_handler, reply, handle_line, reset_request,
}

-- No code sets the state in which `msgCb` loops without reading.
abbrev pub Reads : State → Type 0
Reads new_command = Unit
Reads receive_value = Unit
Reads discard_value = ⊥

readable-retrieve :
    {b : Buffer} (n : ℕ) → IsValid b → readable_bytes (Buffer.retrieve b n) ≡ readable_bytes b - n
readable-retrieve {b} n v =
    sym (length-contents (retrieve-IsValid n v))
    ∙ ap length (contents-retrieve n v)
    ∙ length-drop n (contents b)
    ∙ ap (λ m. m - n) (length-contents v)

found-Within :
    {b : Buffer}
    → IsValid b
    → Within (readable_bytes b) (find_crlf b) × Within (readable_bytes b) (find_eol b)
found-Within {b} v =
    let (c, e) = find_lem v in
    rw (c, e)
      (subst (λ n. Within n (search_crlf (contents b)) × Within n (search_eol (contents b)))
        (length-contents v) (search_crlf-Within (contents b), search_eol-Within (contents b)))

module _ {C : Type 0} (N : Connection C) where
  abbrev Goes : Option (Conversation C) → Type 0
  Goes none = Unit
  Goes (some w) = Reads w.state

  set_handler-Goes :
      (w : Conversation C) (t after : List ℕ) → Reads w.state → Goes (set_handler N w t after)
  unfolding set_handler
  set_handler-Goes w t after r = ground arith

  get_handler-Goes : (w : Conversation C) (t : List ℕ) → Reads w.state → Goes (get_handler N w t)
  unfolding get_handler
  get_handler-Goes w t r = ground arith

  handle_command-Goes :
      (w : Conversation C) (req after : List ℕ)
      → Reads w.state
      → Goes (handle_command N w req after)
  unfolding handle_command reply test_handler
  handle_command-Goes w req after r = ground (
    arith,
    set_handler-Goes (record w { command = _ }) _ after r,
    get_handler-Goes (record w { command = _ }) _ r,
  )

  -- How much a round has left to do.
  abbrev bonus : State → ℕ
  bonus new_command = 0
  bonus receive_value = 1
  bonus discard_value = 0

  abbrev pub work : Conversation C → Buffer → ℕ
  work w buf = 2 * readable_bytes buf + bonus w.state

  abbrev Less : ℕ → Option (Conversation C × Buffer) → Type 0
  Less n none = Unit
  Less n (some r) = IsValid r.1 × Reads r.0.state × (work r.0 r.1 < n)

  bonus_bound : (s : State) → bonus s ≤ 1
  bonus_bound new_command = omega arith
  bonus_bound receive_value = omega arith
  bonus_bound discard_value = omega arith

  Less-line :
      (buf rest : Buffer)
      → IsValid rest
      → readable_bytes rest < readable_bytes buf
      → (o : Option (Conversation C)) → Goes o
      → Less (2 * readable_bytes buf) (do w' ← o; some (w', rest))
  Less-line buf rest v h none g = tt
  Less-line buf rest v h (some w') g = (v, g, omega (arith, bonus_bound w'.state))

  line-Less :
      (w : Conversation C) (buf : Buffer) (at gap : ℕ)
      → IsValid buf
      → Reads w.state
      → readable_bytes buf < 2 ^ 31 - 2
      → at < readable_bytes buf
      → 0 < gap
      → gap ≤ 2
      → Less (2 * readable_bytes buf) (handle_line N w buf at gap)
  unfolding handle_line
  line-Less w buf at gap v r small lt pos two =
      let n = size_of_int (add_int (int_of_size at) gap) in
      let e : n ≡ at + gap = ground arith in
      let rest = Buffer.retrieve buf n in
      let fewer : readable_bytes rest < readable_bytes buf =
        omega (arith, readable-retrieve n v, e) in
      let req = peek buf (size_of_int (int_of_size at)) in
      let after = drop (buf.reader_index + size_of_int (int_of_size at)) buf.bytes in
      elim (Bool-cases (int_of_size at == 0)) [
        | inl z ↦ rw z (Less-line buf rest (retrieve-IsValid n v) fewer (some w) r)
        | inr z ↦ rw z (
            Less-line buf rest (retrieve-IsValid n v) fewer (handle_command N w req after)
              (handle_command-Goes w req after r))
      ]

  receive-Less :
      (w : Conversation C) (buf : Buffer)
      → IsValid buf
      → w.state ≡ receive_value
      → Less (work w buf) (receive N w buf)
  unfolding receive reset_request reply
  receive-Less w buf v e =
      let n = min (readable_bytes buf) (num_free w.curr_entry) in
      ground (arith, retrieve-IsValid n v, readable-retrieve n v, e)

  abbrev Round : ℕ → Option (Option (Conversation C × Buffer)) → Type 0
  Round n none = Unit
  Round n (some none) = Unit
  Round n (some (some r)) = Less n (some r)

  Round-some :
      (n : ℕ) (o : Option (Conversation C × Buffer)) → Less n o → Round n (do r ← o; some (some r))
  Round-some n none l = tt
  Round-some n (some r) l = l

  -- The loop goes on only with less to do.
  round-Less :
      (w : Conversation C) (s : State) (buf : Buffer)
      → IsValid buf
      → Reads s
      → readable_bytes buf < 2 ^ 31 - 2
      → Round (work (record w { state = s }) buf) (round N (record w { state = s }) buf)
  unfolding round
  round-Less w discard_value buf v r small = absurd r
  round-Less w receive_value buf v r small =
      Round-some (work w' buf) (receive N w' buf) (receive-Less w' buf v refl)
    where
      w' : Conversation C
      w' = record w { state = receive_value }
  round-Less w new_command buf v r small = elim (Option-cases (find_crlf buf)) [
    | inr (at, c) ↦
        let lt = subst (Within (readable_bytes buf)) c (found-Within v).0 in
        rw (c, round)
          (Round-some (work w' buf) (handle_line N w' buf at 2) (
            Less-work (handle_line N w' buf at 2)
              (line-Less w' buf at 2 v tt small lt (omega arith) (omega arith))))
    | inl n ↦ elim (Option-cases (find_eol buf)) [
      | inr (at, c) ↦
          let lt = subst (Within (readable_bytes buf)) c (found-Within v).1 in
          rw (n, c, round)
            (Round-some (work w' buf) (handle_line N w' buf at 1) (
              Less-work (handle_line N w' buf at 1)
                (line-Less w' buf at 1 v tt small lt (omega arith) (omega arith))))
      | inl n' ↦ rw (n, n', round) tt
    ]
  ]
    where
      w' : Conversation C
      w' = record w { state = new_command }

      Less-work :
          (o : Option (Conversation C × Buffer))
          → Less (2 * readable_bytes buf) o
          → Less (work w' buf) o
      Less-work none l = tt
      Less-work (some x) l = (l.0, l.1, omega (arith, l.2))

  -- The loop has not used up its fuel.
  abbrev pub Ends : Option (Conversation C × Buffer × Bool) → Type 0
  Ends none = Unit
  Ends (some r) = r.2 ≡ true

  after-Ends :
      (fuel : ℕ) (w : Conversation C) (buf : Buffer)
      → ((w' : Conversation C) (buf' : Buffer)
          → IsValid buf'
          → Reads w'.state
          → work w' buf' < work w buf
          → Ends (msg_cb N fuel w' buf'))
      → (o : Option (Option (Conversation C × Buffer))) → Round (work w buf) o
      → Ends
          (do next ← o; elim next [ none ↦ some (w, buf, true) | some x ↦ msg_cb N fuel x.0 x.1 ])
  after-Ends fuel w buf again none l = tt
  after-Ends fuel w buf again (some none) l = refl
  after-Ends fuel w buf again (some (some x)) l = again x.0 x.1 l.0 l.1 l.2

  -- With one round more than twice the readable bytes as fuel, and one more where a value is
  -- waited for, msgCb does not use up its fuel, from a valid buffer of less than 2^31 - 2 readable
  -- bytes and any state but kDiscardValue; it ends, or faults in a call.
  pub msg_cb-Ends :
      (fuel : ℕ) (w : Conversation C) (buf : Buffer)
      → IsValid buf
      → Reads w.state
      → readable_bytes buf < 2 ^ 31 - 2
      → work w buf < fuel
      → Ends (msg_cb N fuel w buf)
  unfolding msg_cb
  msg_cb-Ends zero w buf v r small lt = absurd (omega arith)
  msg_cb-Ends (suc fuel) w buf v r small lt = elim (Bool-cases (ltb 0 (readable_bytes buf))) [
    | inl more ↦ rw more (
        after-Ends fuel w buf
          (λ w' buf' v' r' lt'.
            msg_cb-Ends fuel w' buf' v' r' (omega (arith, small, lt', bonus_bound w.state))
              (omega (arith, lt, lt')))
          (round N w buf) (round-Less w w.state buf v r small))
    | inr done ↦ rw done refl
  ]
