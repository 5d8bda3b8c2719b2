-- ===== src/Net/TcpConnection.antt =====
-- libeva/Net/TcpConnection.h and TcpConnection.cc: the sending side of a connection, in the thread of
-- its reactor. `written` is what the socket has accepted so far; what `::write` returns is an
-- argument. The callbacks of the owner and the logging are left out.
pub mod Stream
pub mod States
mod Tests
use libeva.Base.{
  ℕ, ◌-◌, Bool, true, false, not, ◌&&◌, List, [], ◌∷◌, ◌++◌, ltb, ◌==◌, if◌then◌else◌, length, take,
  drop,
}
use libeva.Net.Buffer.{Buffer, append, retrieve, peek, readable_bytes}

pub data StateE : Type 0 where
  disconnected : StateE
  connecting : StateE
  connected : StateE
  disconnecting : StateE

-- What `::write` returns: the number of bytes that it took, or an error by its errno: EWOULDBLOCK,
-- one of EPIPE and ECONNRESET, or another.
pub data Write : Type 0 where
  took : ℕ → Write
  would_block : Write
  broken : Write
  other_error : Write

pub record TcpConnection : Type 0 where
  pub state : StateE
  pub reading : Bool
  pub writing : Bool
  pub output_buffer : Buffer
  pub written : List ℕ
  pub shut : Bool

abbrev num_write : Write → ℕ
num_write (took n) = n
num_write would_block = 0
num_write broken = 0
num_write other_error = 0

abbrev intolerance_error : Write → Bool
intolerance_error (took n) = false
intolerance_error would_block = false
intolerance_error broken = true
intolerance_error other_error = false

-- What is left of the data goes behind what is pending.
pub queue_rest : TcpConnection → List ℕ → TcpConnection
queue_rest c rest =
    if ltb 0 (length rest)
    then record c { output_buffer = append c.output_buffer rest; writing = true }
    else c

-- `::write` is tried where nothing is pending.
pub write_or_queue : TcpConnection → List ℕ → Write → TcpConnection
unfolding queue_rest
write_or_queue c data' result =
    if not c.writing && (readable_bytes c.output_buffer == 0)
    then (if intolerance_error result
        then c
        else queue_rest (record c { written = c.written ++ take (num_write result) data' })
            (drop (num_write result) data'))
    else queue_rest c data'

pub send_in_reactor : TcpConnection → List ℕ → Write → TcpConnection
unfolding write_or_queue
send_in_reactor c data' result = elim c.state [
  | disconnected ↦ c
  | connecting ↦ write_or_queue c data' result
  | connected ↦ write_or_queue c data' result
  | disconnecting ↦ write_or_queue c data' result
]

pub send : TcpConnection → List ℕ → Write → TcpConnection
unfolding send_in_reactor
send c data' result = elim c.state [
  | disconnected ↦ c
  | connecting ↦ c
  | connected ↦ send_in_reactor c data' result
  | disconnecting ↦ c
]

pub shutdown_in_loop : TcpConnection → TcpConnection
shutdown_in_loop c = if not c.writing then record c { shut = true } else c

-- The output buffer is empty: the end of the writing.
pub drained : TcpConnection → TcpConnection
unfolding shutdown_in_loop
drained c =
    let idle = record c { writing = false } in
    elim c.state [
      | disconnected ↦ idle
      | connecting ↦ idle
      | connected ↦ idle
      | disconnecting ↦ shutdown_in_loop idle
    ]

pub handle_write : TcpConnection → Write → TcpConnection
unfolding drained
handle_write c result =
    let n = num_write result in
    let c' = record c {
      written = c.written ++ take n (peek c.output_buffer (readable_bytes c.output_buffer));
      output_buffer = retrieve c.output_buffer n;
    } in
    if c.writing && ltb 0 n
    then (if readable_bytes c'.output_buffer == 0 then drained c' else c')
    else c

unfoldable pub connect_established : TcpConnection → TcpConnection
connect_established c = record c { reading = true; state = connected }

unfoldable pub handle_close : TcpConnection → TcpConnection
handle_close c = record c { state = disconnected; reading = false; writing = false }

unfoldable pub connect_destroyed : TcpConnection → TcpConnection
unfolding handle_close
connect_destroyed c = elim c.state [
  | disconnected ↦ c
  | connecting ↦ c
  | connected ↦ handle_close c
  | disconnecting ↦ c
]
