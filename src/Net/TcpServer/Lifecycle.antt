-- ===== src/Net/TcpServer/Lifecycle.antt =====
-- libeva/Net/TcpServer.cc: every connection goes through its life once.
use libeva.Base.{
  ℕ, suc, ◌≤◌, ◌≡◌, refl, sym, subst, ◌∙◌, inl, inr, true, false, none, some, arith, ◌==◌,
  Bool-cases, ==_iff, Option-cases,
}
use mathlib.Core.Option.{some-injective}
use libeva.Reactor.ThreadPool.{ReactorThreadPool, get_next_reactor}
use libeva.Net.TcpConnection.{
  TcpConnection, StateE, disconnected, connecting, connected, disconnecting,
}
use libeva.Net.TcpConnection.States.{send-state, handle_write-state}
use libeva.Net.TcpServer.{
  TcpServer, Accepted, no_socket, bad_socket, good_socket, Read, some_bytes, end_of_stream,
  read_error, at, new_connection, init, handle_new_connection, handle_accept, connect_established,
  handle_close, handle_read, remove_connection, remove_connection_in_reactor, connect_destroyed,
  set_conn, Step, accept, establish, read, send, write, remove, destroy, Reach, here, next,
}
use libeva.Net.TcpServer.Phase.{Phase, unborn, accepted, rank, AtPhase, Moves, Same, AtPhase-Same}
use libeva.Net.TcpServer.Moves.{
  establish-Moves, close-Moves, remove-Moves, destroy-Moves, set_conn-Moves,
}

module _ {R : Type 0} where
  -- After a connection was accepted.
  abbrev created : TcpServer R → R × ReactorThreadPool R → TcpServer R
  created s r = record s {
    reactor_pool = r.1;
    num_created = suc s.num_created;
    owner = at s.owner s.num_created (some r.0);
    conns = at s.conns s.num_created (some new_connection);
    conn_map = at s.conn_map s.num_created true;
    to_establish = at s.to_establish s.num_created (suc (s.to_establish s.num_created));
  }

  stays : (p : Phase) (s s' : TcpServer R) (k : ℕ) → Same s s' k → AtPhase p s k → Moves p s' k
  stays p s s' k h a = (p, AtPhase-Same p s s' k h a, inl refl)

  -- A step that concerns one connection.
  focus :
      (k j : ℕ) (p : Phase) (s s' : TcpServer R)
      → (AtPhase p s k → Moves p s' k)
      → ((j == k) ≡ false → Same s s' j)
      → AtPhase p s j
      → Moves p s' j
  focus k j p s s' moves same a = elim (Bool-cases (j == k)) [
    | inl e ↦
        let here = (==_iff j k).0 e in
        subst (Moves p s') (sym here) (moves (subst (AtPhase p s) here a))
    | inr other ↦ stays p s s' j (same other) a
  ]

  -- A new connection is the next number.
  new-Moves :
      (p : Phase) (s : TcpServer R) (r : R × ReactorThreadPool R)
      → AtPhase p s s.num_created
      → Moves p (created s r) s.num_created
  new-Moves unborn s r (u, t) = (
    accepted,
    ((omega arith, new_connection, ground arith, refl, refl), ground (arith, t)),
    inr refl,
  )
  new-Moves p s r a = absurd (omega arith)

  accept-Moves :
      (x : Accepted) (p : Phase) (s s' : TcpServer R) (j : ℕ)
      → handle_accept s x ≡ some s'
      → AtPhase p s j
      → Moves p s' j
  unfolding handle_accept handle_new_connection
  accept-Moves no_socket p s s' j e a =
      subst (λ u. Moves p u j) (some-injective s s' e) (p, a, inl refl)
  accept-Moves bad_socket p s s' j e a =
      subst (λ u. Moves p u j) (some-injective s s' e) (p, a, inl refl)
  accept-Moves good_socket p s s' j e a = elim (Option-cases (get_next_reactor s.reactor_pool)) [
    | inl failed ↦ let fails : handle_accept s good_socket ≡ none = rw failed refl in cc
    | inr (r, got) ↦
        let new : handle_accept s good_socket ≡ some (created s r) = rw got refl in
        subst (λ u. Moves p u j) (some-injective (created s r) s' (sym new ∙ e))
          (focus s.num_created j p s (created s r) (new-Moves p s r)
            (λ other. rw other (
              (omega arith, λ le. ground (arith, other, le)),
              refl,
              refl,
              refl,
              refl,
              refl,
              refl,
              refl,
            ))
            a)
  ]

  establish-other :
      (s : TcpServer R) (j k n : ℕ) (c : TcpConnection)
      → (j == k) ≡ false
      → Same s (connect_established (record s { to_establish = at s.to_establish k n }) k c) j
  unfolding connect_established
  establish-other s j k n c other =
      rw other ((omega arith, λ le. le), refl, refl, refl, refl, refl, refl, refl)

  close-other :
      (s : TcpServer R) (j k : ℕ) (c : TcpConnection)
      → (j == k) ≡ false
      → Same s (handle_close s k c) j
  unfolding handle_close remove_connection
  close-other s j k c other =
      rw other ((omega arith, λ le. le), refl, refl, refl, refl, refl, refl, refl)

  remove-other :
      (s : TcpServer R) (j k n : ℕ)
      → (j == k) ≡ false
      → Same s (remove_connection_in_reactor (record s { to_remove = at s.to_remove k n }) k) j
  unfolding remove_connection_in_reactor
  remove-other s j k n other =
      rw other ((omega arith, λ le. le), refl, refl, refl, refl, refl, refl, refl)

  destroy-other :
      (s : TcpServer R) (j k n : ℕ) (c : TcpConnection)
      → (j == k) ≡ false
      → Same s (connect_destroyed (record s { to_destroy = at s.to_destroy k n }) k c) j
  unfolding connect_destroyed
  destroy-other s j k n c other = at_state c.state
    where
      at_state :
          (st : StateE)
          → Same s
              (connect_destroyed
                (record s { to_destroy = at s.to_destroy k n })
                k
                (record c { state = st }))
              j
      at_state disconnected =
          rw other ((omega arith, λ le. le), refl, refl, refl, refl, refl, refl, refl)
      at_state connecting =
          rw other ((omega arith, λ le. le), refl, refl, refl, refl, refl, refl, refl)
      at_state connected =
          rw other ((omega arith, λ le. le), refl, refl, refl, refl, refl, refl, refl)
      at_state disconnecting =
          rw other ((omega arith, λ le. le), refl, refl, refl, refl, refl, refl, refl)

  set_conn-other :
      (s : TcpServer R) (j k : ℕ) (c : TcpConnection) → (j == k) ≡ false → Same s (set_conn s k c) j
  set_conn-other s j k c other =
      rw other ((omega arith, λ le. le), refl, refl, refl, refl, refl, refl, refl)

  read-Moves :
      (x : Read) (p : Phase) (s : TcpServer R) (k j : ℕ) (c : TcpConnection)
      → s.conns k ≡ some c
      → c.reading ≡ true
      → AtPhase p s j
      → Moves p (handle_read s k c x) j
  unfolding handle_read
  read-Moves some_bytes p s k j c e on a = (p, a, inl refl)
  read-Moves read_error p s k j c e on a = (p, a, inl refl)
  read-Moves end_of_stream p s k j c e on a =
      focus k j p s (handle_close s k c) (close-Moves p s k c e on) (close-other s j k c) a

  -- Each step leaves each connection in its phase or takes it to the next one.
  pub Step-Moves :
      {s s' : TcpServer R} → Step s s' → (j : ℕ) (p : Phase) → AtPhase p s j → Moves p s' j
  Step-Moves {s} (accept x s' e) j p a = accept-Moves x p s s' j e a
  Step-Moves {s} (establish k n c q e) j p a =
      focus k j p s _ (establish-Moves p s k n c q e) (establish-other s j k n c) a
  Step-Moves {s} (read k c x e on) j p a = read-Moves x p s k j c e on a
  Step-Moves {s} (send k c bytes w e) j p a =
      focus k j p s _ (set_conn-Moves p s k c _ e (send-state c bytes w)) (set_conn-other s j k _) a
  Step-Moves {s} (write k c w e) j p a =
      focus k j p s _ (set_conn-Moves p s k c _ e (handle_write-state c w)) (set_conn-other s j k _)
        a
  Step-Moves {s} (remove k n q) j p a =
      focus k j p s _ (remove-Moves p s k n q) (remove-other s j k n) a
  Step-Moves {s} (destroy k n c q e) j p a =
      focus k j p s _ (destroy-Moves p s k n c q e) (destroy-other s j k n c) a

  init-AtPhase : (pool : ReactorThreadPool R) (k : ℕ) → AtPhase unborn (init pool) k
  unfolding init
  init-AtPhase pool k = ((omega arith, refl), (refl, refl, refl, refl, refl, refl))

  Reach-forward :
      {s t : TcpServer R}
      → Reach s t
      → (k : ℕ) (p : Phase) → AtPhase p s k
      → (q : Phase) × AtPhase q t k × (rank p ≤ rank q)
  Reach-forward here k p a = (p, a, omega arith)
  Reach-forward (next r st) k p a =
      let (q, b, le) = Reach-forward r k p a in
      let (q', b', step) = Step-Moves st k q b in
      elim step [ inl e ↦ (q', b', omega arith) | inr e ↦ (q', b', omega arith) ]

  -- In every reachable state of the server each connection is in one of six phases: not yet made;
  -- accepted, in connMap_, with connectEstablished queued; established, with its event registered and
  -- a conversation; closed, without a conversation, with removeConnectionInReactor queued; removed
  -- from connMap_, with connectDestroyed queued; or destroyed, in no table. No functor is queued
  -- twice. In a later state it is in the same phase or a later one.
  pub Reach-AtPhase :
      (pool : ReactorThreadPool R) (s t : TcpServer R)
      → Reach (init pool) s
      → Reach s t
      → (k : ℕ) → (p : Phase) × (q : Phase) × AtPhase p s k × AtPhase q t k × (rank p ≤ rank q)
  Reach-AtPhase pool s t r r' k =
      let (p, a, le) = Reach-forward r k unborn (init-AtPhase pool k) in
      let (q, b, le') = Reach-forward r' k p a in (p, q, a, b, le')
