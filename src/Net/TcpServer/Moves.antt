-- ===== src/Net/TcpServer/Moves.antt =====
-- libeva/Net/TcpServer.cc: what each function does to the phase of its connection.
use libeva.Base.{ℕ, suc, ◌≡◌, refl, sym, ap, subst, ◌∙◌, inl, inr, Bool, true, false, some, arith}
use mathlib.Core.Option.{some-injective}
use libeva.Net.TcpConnection.{
  TcpConnection, StateE, disconnected, connecting, connected, disconnecting, Write,
}
use libeva.Net.TcpConnection
use libeva.Net.TcpConnection.States.{SameState}
use libeva.Net.TcpServer.{
  TcpServer, at, connect_established, handle_close, remove_connection, remove_connection_in_reactor,
  connect_destroyed, set_conn,
}
use libeva.Net.TcpServer.Phase.{
  Phase, unborn, accepted, established, closed, removed, destroyed, Object, AtPhase, Moves,
}

module _ {R : Type 0} where
  -- A queued functor moves its connection, and no other.
  pub establish-Moves :
      (p : Phase) (s : TcpServer R) (k n : ℕ) (c : TcpConnection)
      → s.to_establish k ≡ suc n
      → s.conns k ≡ some c
      → AtPhase p s k
      → Moves p (connect_established (record s { to_establish = at s.to_establish k n }) k c) k
  unfolding connect_established TcpConnection.connect_established
  establish-Moves accepted s k n c q e (o, t) = (
    established,
    ((o.0, TcpConnection.connect_established c, ground arith, refl, refl), ground (arith, q, t)),
    inr refl,
  )
  establish-Moves p s k n c q e a = ground arith

  pub close-Moves :
      (p : Phase) (s : TcpServer R) (k : ℕ) (c : TcpConnection)
      → s.conns k ≡ some c
      → c.reading ≡ true
      → AtPhase p s k
      → Moves p (handle_close s k c) k
  unfolding handle_close remove_connection TcpConnection.handle_close
  close-Moves established s k c e on (o, t) = (
    closed,
    ((o.0, TcpConnection.handle_close c, ground arith, refl, refl), ground (arith, t)),
    inr refl,
  )
  close-Moves unborn s k c e on ((le, e'), t) = cc
  close-Moves p s k c e on a = ground arith

  pub remove-Moves :
      (p : Phase) (s : TcpServer R) (k n : ℕ)
      → s.to_remove k ≡ suc n
      → AtPhase p s k
      → Moves p (remove_connection_in_reactor (record s { to_remove = at s.to_remove k n }) k) k
  unfolding remove_connection_in_reactor
  remove-Moves closed s k n q (o, t) = (removed, (o, ground (arith, q, t)), inr refl)
  remove-Moves p s k n q a = ground arith

  destroy-idle :
      (s : TcpServer R) (k : ℕ) (c : TcpConnection)
      → c.state ≡ disconnected
      → connect_destroyed s k c ≡ record (set_conn s k c) { registered = at s.registered k false }
  unfolding connect_destroyed TcpConnection.connect_destroyed
  destroy-idle s k c off = ground (arith, off)

  pub destroy-Moves :
      (p : Phase) (s : TcpServer R) (k n : ℕ) (c : TcpConnection)
      → s.to_destroy k ≡ suc n
      → s.conns k ≡ some c
      → AtPhase p s k
      → Moves p (connect_destroyed (record s { to_destroy = at s.to_destroy k n }) k c) k
  unfolding connect_destroyed TcpConnection.connect_destroyed
  destroy-Moves removed s k n c q e ((lt, c', e', st, rd), t) =
      let same : c ≡ c' = some-injective c c' (sym e ∙ e') in
      let off : c.state ≡ disconnected = ap (λ x. x.state) same ∙ st in
      let quiet : c.reading ≡ false = ap (λ x. x.reading) same ∙ rd in
      (
        destroyed,
        subst (λ u. AtPhase destroyed u k)
            (sym (destroy-idle (record s { to_destroy = at s.to_destroy k n }) k c off))
            ((lt, c, ground arith, off, quiet), ground (arith, q, t)),
        inr refl,
      )
  destroy-Moves p s k n c q e a = ground arith

  -- Another object for the same connection, in the same state.
  Object-set_conn :
      (s : TcpServer R) (k : ℕ) (c c' : TcpConnection) (st : StateE) (b : Bool)
      → s.conns k ≡ some c
      → SameState c c'
      → Object s k st b
      → Object (set_conn s k c') k st b
  Object-set_conn s k c c' st b e (hs, hr) (lt, d, ed, ds, dr) =
      let same : c ≡ d = some-injective c d (sym e ∙ ed) in
      (lt, c', ground arith, hs ∙ ap (λ x. x.state) same ∙ ds, hr ∙ ap (λ x. x.reading) same ∙ dr)

  -- A send or a write leaves the phase.
  pub set_conn-Moves :
      (p : Phase) (s : TcpServer R) (k : ℕ) (c c' : TcpConnection)
      → s.conns k ≡ some c
      → SameState c c'
      → AtPhase p s k
      → Moves p (set_conn s k c') k
  set_conn-Moves unborn s k c c' e h ((le, e'), t) = cc
  set_conn-Moves accepted s k c c' e h (o, t) =
      (accepted, (Object-set_conn s k c c' _ _ e h o, t), inl refl)
  set_conn-Moves established s k c c' e h (o, t) =
      (established, (Object-set_conn s k c c' _ _ e h o, t), inl refl)
  set_conn-Moves closed s k c c' e h (o, t) =
      (closed, (Object-set_conn s k c c' _ _ e h o, t), inl refl)
  set_conn-Moves removed s k c c' e h (o, t) =
      (removed, (Object-set_conn s k c c' _ _ e h o, t), inl refl)
  set_conn-Moves destroyed s k c c' e h (o, t) =
      (destroyed, (Object-set_conn s k c c' _ _ e h o, t), inl refl)
