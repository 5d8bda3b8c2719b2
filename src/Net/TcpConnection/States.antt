-- ===== src/Net/TcpConnection/States.antt =====
-- Sending and writing leave the state of a connection and its watch for reading.
use libeva.Base.{ℕ, ◌≡◌, ◌++◌, List, arith, take, drop}
use libeva.Net.Buffer.{peek, readable_bytes, retrieve}
use libeva.Net.TcpConnection.{
  Write, TcpConnection, queue_rest, write_or_queue, send_in_reactor, send, handle_write, drained,
  shutdown_in_loop, num_write,
}

-- The state and the watch are the same.
abbrev pub SameState : TcpConnection → TcpConnection → Type 0
SameState c c' = (c'.state ≡ c.state) × (c'.reading ≡ c.reading)

queue_rest-state : (c : TcpConnection) (rest : List ℕ) → SameState c (queue_rest c rest)
unfolding queue_rest
queue_rest-state c rest = ground arith

write_or_queue-state :
    (c : TcpConnection) (bytes : List ℕ) (w : Write) → SameState c (write_or_queue c bytes w)
unfolding write_or_queue
write_or_queue-state c bytes w = ground (
  arith,
  queue_rest-state c bytes,
  queue_rest-state (record c { written = c.written ++ take (num_write w) bytes })
      (drop (num_write w) bytes),
)

pub send-state : (c : TcpConnection) (bytes : List ℕ) (w : Write) → SameState c (send c bytes w)
unfolding send send_in_reactor
send-state c bytes w = ground (arith, write_or_queue-state c bytes w)

drained-state : (c : TcpConnection) → SameState c (drained c)
unfolding drained shutdown_in_loop
drained-state c = ground arith

pub handle_write-state : (c : TcpConnection) (w : Write) → SameState c (handle_write c w)
unfolding handle_write
handle_write-state c w =
    let n = num_write w in
    let c' = record c {
      written = c.written ++ take n (peek c.output_buffer (readable_bytes c.output_buffer));
      output_buffer = retrieve c.output_buffer n;
    } in
    ground (arith, drained-state c')
