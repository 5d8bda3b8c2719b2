-- ===== src/Net/TcpServer.antt =====
-- libeva/Net/TcpServer.cc, Acceptor.cc and the callbacks of TcpConnection.cc: the connections of a
-- server from the accept to the end of their objects, with the table of conversations of
-- minimemcached, whose newConnCb and finConnCb are the server's callbacks. A connection is known by
-- the number in its name. The functors that the reactors have queued are counted for each connection,
-- and may run in any order. A connection is told of the end of its stream by one callback of a round.
pub mod Phase
pub mod Moves
pub mod Lifecycle
mod Tests
use libeva.Base.{ℕ, suc, ◌==◌, ◌≡◌, Bool, true, false, Option, none, some, List, if◌then◌else◌}
use libeva.Ds.LazyList.{◌>>=◌}
use libeva.Reactor.ThreadPool.{ReactorThreadPool, get_next_reactor, set_thread_num}
use libeva.Reactor.ThreadPool
use libeva.Net.Buffer.{Buffer}
use libeva.Net.Buffer
use libeva.Net.TcpConnection.{
  TcpConnection, StateE, disconnected, connecting, connected, disconnecting, Write,
}
use libeva.Net.TcpConnection

-- `conns` are the objects, `conn_map` the names in connMap_, `registered` the connections whose event
-- is in a reactor's eventMap_, `conversations` the names in conversations_. The last three fields count
-- the queued functors: connectEstablished, removeConnectionInReactor and connectDestroyed.
pub record TcpServer (R : Type 0) : Type 0 where
  pub reactor_pool : ReactorThreadPool R
  pub num_created : ℕ
  pub owner : ℕ → Option R
  pub conns : ℕ → Option TcpConnection
  pub conn_map : ℕ → Bool
  pub registered : ℕ → Bool
  pub conversations : ℕ → Bool
  pub to_establish : ℕ → ℕ
  pub to_remove : ℕ → ℕ
  pub to_destroy : ℕ → ℕ

abbrev pub at {ℓ} : {A : Type ℓ} → (ℕ → A) → ℕ → A → ℕ → A
at m k v j = if j == k then v else m j

-- The constructor of TcpConnection.
abbrev pub new_connection : TcpConnection
new_connection = record {
  state = disconnected;
  reading = false;
  writing = false;
  output_buffer = Buffer.init Buffer.initial_size;
  written = List.[];
  shut = false;
}

-- What accept gives: no socket, one on which poll reports an error, or one that works.
pub data Accepted : Type 0 where
  no_socket : Accepted
  bad_socket : Accepted
  good_socket : Accepted

-- What `readFd` returns: bytes, the end of the stream or an error.
pub data Read : Type 0 where
  some_bytes : Read
  end_of_stream : Read
  read_error : Read

module _ {R : Type 0} where
  pub init : ReactorThreadPool R → TcpServer R
  init pool = record {
    reactor_pool = pool;
    num_created = 0;
    owner = λ k. none;
    conns = λ k. none;
    conn_map = λ k. false;
    registered = λ k. false;
    conversations = λ k. false;
    to_establish = λ k. 0;
    to_remove = λ k. 0;
    to_destroy = λ k. 0;
  }

  pub set_sub_reactor_num : TcpServer R → ℕ → TcpServer R
  set_sub_reactor_num s n = record s { reactor_pool = set_thread_num s.reactor_pool n }

  -- The acceptor only begins to listen.
  pub start : TcpServer R → (ℕ → R) → TcpServer R
  start s started = record s { reactor_pool = ThreadPool.start s.reactor_pool started }

  pub handle_new_connection : TcpServer R → Option (TcpServer R)
  handle_new_connection s = do
    r ← get_next_reactor s.reactor_pool
    let name = s.num_created
    some (record s {
      reactor_pool = r.1;
      num_created = suc s.num_created;
      owner = at s.owner name (some r.0);
      conns = at s.conns name (some new_connection);
      conn_map = at s.conn_map name true;
      to_establish = at s.to_establish name (suc (s.to_establish name));
    })

  -- `Acceptor::handleRead`
  pub handle_accept : TcpServer R → Accepted → Option (TcpServer R)
  unfolding handle_new_connection
  handle_accept s no_socket = some s
  handle_accept s bad_socket = some s
  handle_accept s good_socket = handle_new_connection s

  -- MiniMemcached::newConnCb and finConnCb.
  abbrev pub new_conn_cb : TcpServer R → ℕ → TcpServer R
  new_conn_cb s name = record s { conversations = at s.conversations name true }

  abbrev pub fin_conn_cb : TcpServer R → ℕ → TcpServer R
  fin_conn_cb s name = record s { conversations = at s.conversations name false }

  abbrev pub set_conn : TcpServer R → ℕ → TcpConnection → TcpServer R
  set_conn s name c = record s { conns = at s.conns name (some c) }

  -- The functions of a connection are given its object, which their callers hold.
  pub connect_established : TcpServer R → ℕ → TcpConnection → TcpServer R
  connect_established s name c =
      let s' = set_conn s name (TcpConnection.connect_established c) in
      new_conn_cb (record s' { registered = at s'.registered name true }) name

  -- closeCb_
  pub remove_connection : TcpServer R → ℕ → TcpServer R
  remove_connection s name = record s { to_remove = at s.to_remove name (suc (s.to_remove name)) }

  pub handle_close : TcpServer R → ℕ → TcpConnection → TcpServer R
  unfolding remove_connection
  handle_close s name c =
      remove_connection (fin_conn_cb (set_conn s name (TcpConnection.handle_close c)) name) name

  -- `handleRead`; what the message callback does are steps of its own, and `handleError` only asks
  -- for the error.
  pub handle_read : TcpServer R → ℕ → TcpConnection → Read → TcpServer R
  unfolding handle_close
  handle_read s name c some_bytes = s
  handle_read s name c end_of_stream = handle_close s name c
  handle_read s name c read_error = s

  pub remove_connection_in_reactor : TcpServer R → ℕ → TcpServer R
  remove_connection_in_reactor s name = record s {
    conn_map = at s.conn_map name false;
    to_destroy = at s.to_destroy name (suc (s.to_destroy name));
  }

  pub connect_destroyed : TcpServer R → ℕ → TcpConnection → TcpServer R
  connect_destroyed s name c =
      let s' = set_conn s name (TcpConnection.connect_destroyed c) in
      let s'' : TcpServer R = elim c.state [
        | connected ↦ fin_conn_cb s' name
        | disconnected ↦ s'
        | connecting ↦ s'
        | disconnecting ↦ s'
      ] in
      record s'' { registered = at s''.registered name false }

  -- A step of the server: a handler of the acceptor or of a connection whose event is watched, a send
  -- of the message callback, or a queued functor.
  pub data Step (s : TcpServer R) : TcpServer R → Type 0 where
    accept : (a : Accepted) (s' : TcpServer R) → handle_accept s a ≡ some s' → Step s s'
    establish :
        (k n : ℕ) (c : TcpConnection)
        → s.to_establish k ≡ suc n
        → s.conns k ≡ some c
        → Step s (connect_established (record s { to_establish = at s.to_establish k n }) k c)
    read :
        (k : ℕ) (c : TcpConnection) (r : Read)
        → s.conns k ≡ some c
        → c.reading ≡ true
        → Step s (handle_read s k c r)
    send :
        (k : ℕ) (c : TcpConnection) (bytes : List ℕ) (w : Write)
        → s.conns k ≡ some c
        → Step s (set_conn s k (TcpConnection.send c bytes w))
    write :
        (k : ℕ) (c : TcpConnection) (w : Write)
        → s.conns k ≡ some c
        → Step s (set_conn s k (TcpConnection.handle_write c w))
    remove :
        (k n : ℕ)
        → s.to_remove k ≡ suc n
        → Step s (remove_connection_in_reactor (record s { to_remove = at s.to_remove k n }) k)
    destroy :
        (k n : ℕ) (c : TcpConnection)
        → s.to_destroy k ≡ suc n
        → s.conns k ≡ some c
        → Step s (connect_destroyed (record s { to_destroy = at s.to_destroy k n }) k c)

  pub data Reach (s : TcpServer R) : TcpServer R → Type 0 where
    here : Reach s s
    next : {t u : TcpServer R} → Reach s t → Step t u → Reach s u
