-- ===== src/Net/TcpConnection/Stream.antt =====
-- The bytes of a connection keep their order.
use libeva.Base.{
  ℕ, ◌+◌, ◌≤◌, ◌≡◌, refl, sym, ap, subst, ◌∙◌, inl, inr, true, false, not, ◌&&◌, List, [], ◌∷◌,
  ◌++◌, arith, length, take, drop, ltb, ◌==◌, Bool-cases, append_assoc, append-nil,
  take-append-drop, length-drop, length-append, take-all, ==_iff, lt→ltb, ◌<◌, max_size,
}
use libeva.Net.Buffer.{Buffer, append, retrieve, peek, readable_bytes}
use libeva.Net.Buffer.Valid.{
  IsValid, contents, length-contents, contents-retrieve, retrieve-IsValid,
}
use libeva.Net.Buffer.Append.{append_lem}
use libeva.Net.Buffer.Ints.Trips.{peek-contents}
use libeva.Net.TcpConnection.{
  StateE, disconnected, connecting, disconnecting, Write, TcpConnection, connected, queue_rest,
  write_or_queue, send_in_reactor, send, handle_write, drained, num_write, intolerance_error,
  shutdown_in_loop,
}

-- The buffer is valid, and the socket is watched for writing just as long as bytes are pending.
pub record IsSending (c : TcpConnection) : Type 0 where
  pub valid : IsValid c.output_buffer
  pub watched : c.writing ≡ ltb 0 (readable_bytes c.output_buffer)

-- Everything that was sent: what the socket has, and what is pending.
abbrev pub stream : TcpConnection → List ℕ
stream c = c.written ++ contents c.output_buffer

queue_rest_lem :
    (c : TcpConnection) (rest : List ℕ)
    → IsSending c
    → c.output_buffer.writer_index + length rest ≤ max_size
    → IsSending (queue_rest c rest) × (stream (queue_rest c rest) ≡ stream c ++ rest)
unfolding queue_rest
queue_rest_lem c [] v fits = (v, sym (append-nil (stream c)))
queue_rest_lem c (x ∷ rest) v fits =
    let (va, e) = append_lem (x ∷ rest) v.valid fits in
    let pos : ltb 0 (length (x ∷ rest)) ≡ true = lt→ltb 0 (length (x ∷ rest)) (omega arith) in
    let n : 0 < readable_bytes (append c.output_buffer (x ∷ rest)) = omega (
      arith,
      length-contents va,
      ap length e,
      length-append (contents c.output_buffer) (x ∷ rest),
    ) in
    rw pos (
      record { valid = va; watched = sym (lt→ltb 0 _ n) },
      ap (λ l. c.written ++ l) e
          ∙ sym (append_assoc c.written (contents c.output_buffer) (x ∷ rest)),
    )

-- No bytes are pending.
empty-contents : {b : Buffer} → IsValid b → (readable_bytes b == 0) ≡ true → contents b ≡ []
empty-contents {b} v e =
    nil (contents b) (omega (arith, length-contents v, (==_iff (readable_bytes b) 0).0 e))
  where
    nil : (l : List ℕ) → length l ≡ 0 → l ≡ []
    nil [] h = refl
    nil (x ∷ l) h = absurd (omega arith)

write_or_queue_lem :
    (c : TcpConnection) (data' : List ℕ) (result : Write)
    → IsSending c
    → intolerance_error result ≡ false
    → c.output_buffer.writer_index + length data' ≤ max_size
    → let c' = write_or_queue c data' result in IsSending c' × (stream c' ≡ stream c ++ data')
unfolding write_or_queue
write_or_queue_lem c data' result v ok fits =
    elim (Bool-cases (not c.writing && (readable_bytes c.output_buffer == 0))) [
      | inl direct ↦
          let n = num_write result in
          let c1 = record c { written = c.written ++ take n data' } in
          let v1 : IsSending c1 = record { valid = v.valid; watched = v.watched } in
          let none_pending = empty-contents v.valid (ground (arith, direct)) in
          let (q, e) =
            queue_rest_lem c1 (drop n data') v1 (omega (arith, fits, length-drop n data')) in
          let moved : stream c1 ++ drop n data' ≡ stream c ++ data' =
            rw (none_pending, append-nil (c.written ++ take n data'), append-nil c.written)
              (append_assoc c.written (take n data') (drop n data')
                ∙ ap (λ l. c.written ++ l) (take-append-drop n data')) in
          rw (direct, ok) (q, e ∙ moved)
      | inr queued ↦ rw queued (queue_rest_lem c data' v fits)
    ]

send_connected :
    (c : TcpConnection) (data' : List ℕ) (result : Write)
    → c.state ≡ connected
    → send c data' result ≡ write_or_queue c data' result
unfolding send send_in_reactor
send_connected c data' result st = ground (arith, st)

-- TcpConnection::send of a connected connection puts the data behind what was sent before,
-- whatever part of it ::write takes, unless the socket is broken, and watches the socket just as
-- long as bytes are pending. The vector may grow to hold the data.
pub send_lem :
    (c : TcpConnection) (data' : List ℕ) (result : Write)
    → IsSending c
    → c.state ≡ connected
    → intolerance_error result ≡ false
    → c.output_buffer.writer_index + length data' ≤ max_size
    → IsSending (send c data' result) × (stream (send c data' result) ≡ stream c ++ data')
send_lem c data' result v st ok fits =
    subst (λ c'. IsSending c' × (stream c' ≡ stream c ++ data'))
      (sym (send_connected c data' result st)) (write_or_queue_lem c data' result v ok fits)

drained_at :
    (c : TcpConnection) (s : StateE)
    → IsValid c.output_buffer
    → (readable_bytes c.output_buffer == 0) ≡ true
    → IsSending (drained (record c { state = s }))
      × ((drained (record c { state = s })).written ≡ c.written)
      × (contents (drained (record c { state = s })).output_buffer ≡ contents c.output_buffer)
unfolding drained shutdown_in_loop
drained_at c disconnected v e = (record { valid = v; watched = ground (arith, e) }, refl, refl)
drained_at c connecting v e = (record { valid = v; watched = ground (arith, e) }, refl, refl)
drained_at c connected v e = (record { valid = v; watched = ground (arith, e) }, refl, refl)
drained_at c disconnecting v e = (record { valid = v; watched = ground (arith, e) }, refl, refl)

peek-all : {b : Buffer} → IsValid b → peek b (readable_bytes b) ≡ contents b
peek-all {b} v =
    peek-contents (readable_bytes b) v (omega arith)
    ∙ take-all (readable_bytes b) (contents b) (omega (arith, length-contents v))

-- handleWrite appends the bytes that ::write takes, no more than are pending, to what the socket
-- has, drops as many from the front of what is pending, and watches the socket for writing just as
-- long as bytes are pending.
pub handle_write_lem :
    (c : TcpConnection) (result : Write)
    → IsSending c
    → num_write result ≤ readable_bytes c.output_buffer
    → let c' = handle_write c result in
      IsSending c'
      × (c'.written ≡ c.written ++ take (num_write result) (contents c.output_buffer))
      × (contents c'.output_buffer ≡ drop (num_write result) (contents c.output_buffer))
unfolding handle_write
handle_write_lem c result v fits = elim (Bool-cases (c.writing && ltb 0 (num_write result))) [
  | inr idle ↦
      let zero_taken : num_write result ≡ 0 = ground (arith, idle, v.watched, fits) in
      rw (idle, zero_taken) (v, sym (append-nil c.written), refl)
  | inl some_taken ↦
      let n = num_write result in
      let buf = retrieve c.output_buffer n in
      let vr = retrieve-IsValid n v.valid in
      let c1 = record c {
        written = c.written ++ take n (peek c.output_buffer (readable_bytes c.output_buffer));
        output_buffer = buf;
      } in
      let taken : c1.written ≡ c.written ++ take n (contents c.output_buffer) =
        ap (λ l. c.written ++ take n l) (peek-all v.valid) in
      let left = contents-retrieve n v.valid in
      elim (Bool-cases (readable_bytes buf == 0)) [
        | inl e ↦
            let (d, w, q) = drained_at c1 c.state vr e in
            rw (some_taken, e) (d, w ∙ taken, q ∙ left)
        | inr e ↦
            rw (some_taken, e)
              (record { valid = vr; watched = ground (arith, some_taken, e) }, taken, left)
      ]
]
