-- ===== src/Net/TcpConnection/Tests.antt =====
-- A connection at concrete inputs.
use libeva.Base.{◌≡◌, refl, true, false, [], ◌∷◌, arith}
use libeva.Net.Buffer.{Buffer, readable_bytes}
use libeva.Net.Buffer.Valid.{contents}
use libeva.Net.TcpConnection.{TcpConnection, connected, disconnecting, took, send, handle_write}
use libeva.Net.TcpConnection.Stream.{IsSending, stream, send_lem, handle_write_lem}

-- Room for four bytes.
abbrev room : Buffer
room = record {
  bytes = 0 ∷ 0 ∷ 0 ∷ 0 ∷ 0 ∷ 0 ∷ 0 ∷ 0 ∷ 97 ∷ 98 ∷ 0 ∷ 0 ∷ [];
  reader_index = 8;
  writer_index = 8;
}

abbrev idle : TcpConnection
idle = record {
  state = connected;
  reading = true;
  writing = false;
  output_buffer = room;
  written = 1 ∷ [];
  shut = false;
}

-- "ab" is pending, and the connection is to be shut down.
abbrev pending : TcpConnection
pending = record idle {
  state = disconnecting;
  writing = true;
  output_buffer = record room { writer_index = 10 };
}

idle-IsSending : IsSending idle
unfolding readable_bytes
idle-IsSending = record { valid = omega arith; watched = refl }

pending-IsSending : IsSending pending
unfolding readable_bytes
pending-IsSending = record { valid = omega arith; watched = refl }

send_lem_example :
    IsSending (send idle (5 ∷ 6 ∷ 7 ∷ []) (took 2))
    × (stream (send idle (5 ∷ 6 ∷ 7 ∷ []) (took 2)) ≡ 1 ∷ 5 ∷ 6 ∷ 7 ∷ [])
unfolding contents
send_lem_example = send_lem idle (5 ∷ 6 ∷ 7 ∷ []) (took 2) idle-IsSending refl refl (omega arith)

handle_write_lem_example :
    IsSending (handle_write pending (took 1))
    × ((handle_write pending (took 1)).written ≡ 1 ∷ 97 ∷ [])
    × (contents (handle_write pending (took 1)).output_buffer ≡ 98 ∷ [])
unfolding contents readable_bytes
handle_write_lem_example = handle_write_lem pending (took 1) pending-IsSending (omega arith)
