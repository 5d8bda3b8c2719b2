-- ===== src/Net/TcpServer/Tests.antt =====
-- A server with one reactor, and a connection that is accepted, established and closed.
use libeva.Base.{ℕ, ◌≤◌, refl, some, true, []}
use libeva.Reactor.ThreadPool.{ReactorThreadPool, get_next_reactor}
use libeva.Net.TcpConnection
use libeva.Net.TcpServer.{
  TcpServer, good_socket, end_of_stream, new_connection, init, handle_new_connection, handle_accept,
  connect_established, handle_read, Step, accept, establish, read, here, next, at,
}
use libeva.Net.TcpServer.Phase.{Phase, rank, AtPhase}
use libeva.Net.TcpServer.Lifecycle.{Reach-AtPhase}

abbrev pool : ReactorThreadPool ℕ
pool = record { reactor = 9; reactors = []; thread_num = 0; next_index = 0 }

abbrev one_accepted : TcpServer ℕ
one_accepted = record (init pool) {
  num_created = 1;
  owner = at (init pool).owner 0 (some 9);
  conns = at (init pool).conns 0 (some new_connection);
  conn_map = at (init pool).conn_map 0 true;
  to_establish = at (init pool).to_establish 0 1;
}

one_accepted-Step : Step (init pool) one_accepted
unfolding handle_accept handle_new_connection get_next_reactor init
one_accepted-Step = accept good_socket one_accepted refl

abbrev one_established : TcpServer ℕ
one_established =
    connect_established (record one_accepted { to_establish = at one_accepted.to_establish 0 0 }) 0
      new_connection

one_established-Step : Step one_accepted one_established
unfolding init
one_established-Step = establish 0 0 new_connection refl refl

abbrev one_closed : TcpServer ℕ
one_closed =
    handle_read one_established 0 (TcpConnection.connect_established new_connection) end_of_stream

one_closed-Step : Step one_established one_closed
unfolding connect_established TcpConnection.connect_established
one_closed-Step = read 0 (TcpConnection.connect_established new_connection) end_of_stream refl refl

Reach-AtPhase_example :
    (p : Phase) × (q : Phase) × AtPhase p one_accepted 0
    × AtPhase q one_closed 0
    × (rank p ≤ rank q)
Reach-AtPhase_example =
    Reach-AtPhase pool one_accepted one_closed (next here one_accepted-Step)
      (next (next here one_established-Step) one_closed-Step) 0
