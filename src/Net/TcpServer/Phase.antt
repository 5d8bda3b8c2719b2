-- ===== src/Net/TcpServer/Phase.antt =====
-- libeva/Net/TcpServer.cc: the phases of a connection.
use libeva.Base.{ℕ, suc, ◌<◌, ◌≤◌, ◌≡◌, ◌⊎◌, ◌∙◌, Bool, true, false, none, some, arith}
use libeva.Net.TcpConnection.{TcpConnection, StateE, disconnected, connected}
use libeva.Net.TcpServer.{TcpServer}

-- Before a connection is made; queued for its reactor; established; closed and queued for the server;
-- taken from the server and queued for its reactor; and destroyed.
pub data Phase : Type 0 where
  unborn : Phase
  accepted : Phase
  established : Phase
  closed : Phase
  removed : Phase
  destroyed : Phase

abbrev pub rank : Phase → ℕ
rank unborn = 0
rank accepted = 1
rank established = 2
rank closed = 3
rank removed = 4
rank destroyed = 5

module _ {R : Type 0} where
  -- The tables of the server, and the functors that are queued, for one connection.
  abbrev pub Tables : TcpServer R → ℕ → Bool → Bool → Bool → ℕ → ℕ → ℕ → Type 0
  Tables s k mapped registered conversation e r d =
      (s.conn_map k ≡ mapped)
      × (s.registered k ≡ registered)
      × (s.conversations k ≡ conversation)
      × (s.to_establish k ≡ e)
      × (s.to_remove k ≡ r)
      × (s.to_destroy k ≡ d)

  -- The object of a connection.
  abbrev pub Object : TcpServer R → ℕ → StateE → Bool → Type 0
  Object s k state reading =
      (k < s.num_created)
      × (c : TcpConnection) × (s.conns k ≡ some c)
      × (c.state ≡ state)
      × (c.reading ≡ reading)

  abbrev pub AtPhase : Phase → TcpServer R → ℕ → Type 0
  AtPhase unborn s k =
      ((s.num_created ≤ k) × (s.conns k ≡ none)) × Tables s k false false false 0 0 0
  AtPhase accepted s k = Object s k disconnected false × Tables s k true false false 1 0 0
  AtPhase established s k = Object s k connected true × Tables s k true true true 0 0 0
  AtPhase closed s k = Object s k disconnected false × Tables s k true true false 0 1 0
  AtPhase removed s k = Object s k disconnected false × Tables s k false true false 0 0 1
  AtPhase destroyed s k = Object s k disconnected false × Tables s k false false false 0 0 0

  -- In the same phase, or in the next.
  abbrev pub Moves : Phase → TcpServer R → ℕ → Type 0
  Moves p s k = (q : Phase) × AtPhase q s k × ((rank q ≡ rank p) ⊎ (rank q ≡ suc (rank p)))

  -- Nothing changes for a connection.
  abbrev pub Same : TcpServer R → TcpServer R → ℕ → Type 0
  Same s s' k =
      ((s.num_created ≤ s'.num_created) × (s.num_created ≤ k → s'.num_created ≤ k))
      × (s'.conns k ≡ s.conns k)
      × (s'.conn_map k ≡ s.conn_map k)
      × (s'.registered k ≡ s.registered k)
      × (s'.conversations k ≡ s.conversations k)
      × (s'.to_establish k ≡ s.to_establish k)
      × (s'.to_remove k ≡ s.to_remove k)
      × (s'.to_destroy k ≡ s.to_destroy k)

  Tables-Same :
      (s s' : TcpServer R) (k : ℕ) (m g v : Bool) (e r d : ℕ)
      → Same s s' k
      → Tables s k m g v e r d
      → Tables s' k m g v e r d
  Tables-Same s s' k m g v e r d (n, c, h1, h2, h3, h4, h5, h6) (t1, t2, t3, t4, t5, t6) =
      (h1 ∙ t1, h2 ∙ t2, h3 ∙ t3, h4 ∙ t4, h5 ∙ t5, h6 ∙ t6)

  Object-Same :
      (s s' : TcpServer R) (k : ℕ) (st : StateE) (b : Bool)
      → Same s s' k
      → Object s k st b
      → Object s' k st b
  Object-Same s s' k st b h (lt, c, e, q, u) = (omega (arith, h.0.0), c, h.1 ∙ e, q, u)

  pub AtPhase-Same :
      (p : Phase) (s s' : TcpServer R) (k : ℕ) → Same s s' k → AtPhase p s k → AtPhase p s' k
  AtPhase-Same unborn s s' k h ((le, e), t) =
      ((h.0.1 le, h.1 ∙ e), Tables-Same s s' k _ _ _ _ _ _ h t)
  AtPhase-Same accepted s s' k h (o, t) =
      (Object-Same s s' k _ _ h o, Tables-Same s s' k _ _ _ _ _ _ h t)
  AtPhase-Same established s s' k h (o, t) =
      (Object-Same s s' k _ _ h o, Tables-Same s s' k _ _ _ _ _ _ h t)
  AtPhase-Same closed s s' k h (o, t) =
      (Object-Same s s' k _ _ h o, Tables-Same s s' k _ _ _ _ _ _ h t)
  AtPhase-Same removed s s' k h (o, t) =
      (Object-Same s s' k _ _ h o, Tables-Same s s' k _ _ _ _ _ _ h t)
  AtPhase-Same destroyed s s' k h (o, t) =
      (Object-Same s s' k _ _ h o, Tables-Same s s' k _ _ _ _ _ _ h t)
