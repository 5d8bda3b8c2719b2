-- ===== src/Reactor/Event.antt =====
-- libeva/Reactor/Event.h and Event.cc: what is asked of a file descriptor, as the flags of poll, and
-- what `handle` calls for what was reported. A callback that is not set is not called.
use Prim.Native.Nat.{bit_and, bit_or}
use libeva.Base.{ℕ, ◌-◌, ◌^◌, Bool, true, false, not, ◌&&◌, List, [], ◌∷◌, ◌++◌, ◌==◌}

-- The enumeration of Demultiplexer.cc.
pub data EventState : Type 0 where
  is_new : EventState
  added : EventState
  deled : EventState

pub record Event : Type 0 where
  pub fd : ℕ
  pub state : EventState
  pub events : ℕ
  pub revents : ℕ

abbrev pub none_event : ℕ
none_event = 0

-- POLLIN | POLLPRI
abbrev pub read_event : ℕ
read_event = 3

-- POLLOUT
abbrev pub write_event : ℕ
write_event = 4

unfoldable pub init : ℕ → Event
init fd = record { fd = fd; state = is_new; events = 0; revents = 0 }

-- The changes that are made to `events_`, before `update`.
abbrev pub with_reading : ℕ → ℕ
with_reading events = bit_or events read_event

abbrev pub with_writing : ℕ → ℕ
with_writing events = bit_or events write_event

abbrev pub without_writing : ℕ → ℕ
without_writing events = bit_and events (2 ^ 32 - 1 - write_event)

unfoldable pub is_writing : ℕ → Bool
is_writing events = not (bit_and events write_event == 0)

unfoldable pub is_reading : ℕ → Bool
is_reading events = not (bit_and events read_event == 0)

unfoldable pub is_none_event : ℕ → Bool
is_none_event events = events == none_event

pub data Callback : Type 0 where
  on_close : Callback
  on_error : Callback
  on_read : Callback
  on_write : Callback

abbrev has : ℕ → ℕ → Bool
has revents flags = not (bit_and revents flags == 0)

abbrev when : Bool → Callback → List Callback
when true c = c ∷ []
when false c = []

-- `handle`: POLLHUP is 16, POLLNVAL 32, POLLERR 8 and POLLRDHUP 0x2000.
pub handle : ℕ → List Callback
handle revents =
    when (has revents 16 && not (has revents 1)) on_close
    ++ (when (has revents 40) on_error
        ++ (when (has revents 0x2003) on_read ++ when (has revents 4) on_write))
