-- ===== src/Reactor/Pending.antt =====
-- libeva/Reactor/Reactor.h and Reactor.cc: the loop of `dispatch` and the functors that are queued
-- for it. The reactor's thread and any number of other threads take their steps in any order; a step
-- is one access to what they share. `queued` and `executed` record what was queued and run so far.
pub mod Order
pub mod Wakeup
use libeva.Base.{ℕ, suc, ◌+◌, ◌<◌, ◌≡◌, Bool, true, false, List, [], ◌∷◌, ◌++◌}

-- Where the reactor's thread stands: in `demultiplex`; in `readEventfd`; in the handlers of the
-- events and the timers; after a handler has pushed a functor, and at the test for its `wakeup`; at
-- the test of hasPendingFunctors_;
-- in `doPendingFunctors` before the swap; with the functors that are left to call; after one of them
-- has pushed a functor, and at the test for its `wakeup`; before hasPendingFunctors_ is reset; at the test of
-- dispatching_; and after the loop.
pub data Pc (F : Type 0) : Type 0 where
  waiting : Pc F
  woken : Pc F
  handling : Pc F
  handler_pushed : Pc F
  handler_waking : Pc F
  testing : Pc F
  starting : Pc F
  swapping : Pc F
  calling : List F → Pc F
  call_pushed : List F → Pc F
  call_waking : List F → Pc F
  resetting : Pc F
  looping : Pc F
  stopped : Pc F

-- `pushed` other threads have pushed a functor and not set the flag yet, and `flagged` have set it
-- and not called `wakeup` yet.
pub record Reactor (F : Type 0) : Type 0 where
  pub dispatching : Bool
  pub eventfd : ℕ
  pub has_pending_functors : Bool
  pub calling_pending_functors : Bool
  pub pending_functors : List F
  pub pc : Pc F
  pub pushed : ℕ
  pub flagged : ℕ
  pub queued : List F
  pub executed : List F

-- `dispatch` has been called.
abbrev pub start : {F : Type 0} → Reactor F
start = record {
  dispatching = true;
  eventfd = 0;
  has_pending_functors = false;
  calling_pending_functors = false;
  pending_functors = [];
  pc = waiting;
  pushed = 0;
  flagged = 0;
  queued = [];
  executed = [];
}

module _ {F : Type 0} where
  -- The push of `queueInReactor`, under the mutex.
  abbrev pub push : Reactor F → F → Reactor F
  push r f = record r {
    pending_functors = r.pending_functors ++ (f ∷ []);
    queued = r.queued ++ (f ∷ []);
  }

  -- eventfd_ is a counter, which a write of one adds to and a read resets.
  abbrev pub wakeup : Reactor F → Reactor F
  wakeup r = record r { eventfd = suc r.eventfd }

  abbrev pub drain : Reactor F → Reactor F
  drain r = record r { eventfd = 0; has_pending_functors = true }

  -- What handlers and timers do to the reactor: `readEventfd`, `stop`, and `queueInReactor`, which
  -- calls `wakeup` in the reactor's thread only if callingPendingFunctors_ is set.
  pub data Handling (r : Reactor F) : Reactor F → Type 0 where
    read_later : r.pc ≡ handling → Handling r (record (drain r) { pc = handling })
    handler_push :
        (f : F) → r.pc ≡ handling → Handling r (record (push r f) { pc = handler_pushed })
    handler_flag :
        r.pc ≡ handler_pushed
        → Handling r (record r { pc = handler_waking; has_pending_functors = true })
    handler_quiet :
        r.pc ≡ handler_waking
        → r.calling_pending_functors ≡ false
        → Handling r (record r { pc = handling })
    handler_wakeup :
        r.pc ≡ handler_waking
        → r.calling_pending_functors ≡ true
        → Handling r (record (wakeup r) { pc = handling })
    handler_stop : r.pc ≡ handling → Handling r (record r { dispatching = false })

  -- `doPendingFunctors`, whose functors may call `queueInReactor` and `stop`.
  pub data DoPending (r : Reactor F) : Reactor F → Type 0 where
    set_calling :
        r.pc ≡ starting → DoPending r (record r { pc = swapping; calling_pending_functors = true })
    swap :
        r.pc ≡ swapping
        → DoPending r (record r { pc = calling r.pending_functors; pending_functors = [] })
    call :
        (f : F) (fs : List F)
        → r.pc ≡ calling (f ∷ fs)
        → DoPending r (record r { pc = calling fs; executed = r.executed ++ (f ∷ []) })
    call_push :
        (f : F) (fs : List F)
        → r.pc ≡ calling fs
        → DoPending r (record (push r f) { pc = call_pushed fs })
    call_flag :
        (fs : List F)
        → r.pc ≡ call_pushed fs
        → DoPending r (record r { pc = call_waking fs; has_pending_functors = true })
    call_quiet :
        (fs : List F)
        → r.pc ≡ call_waking fs
        → r.calling_pending_functors ≡ false
        → DoPending r (record r { pc = calling fs })
    call_wakeup :
        (fs : List F)
        → r.pc ≡ call_waking fs
        → r.calling_pending_functors ≡ true
        → DoPending r (record (wakeup r) { pc = calling fs })
    call_stop : (fs : List F) → r.pc ≡ calling fs → DoPending r (record r { dispatching = false })
    called :
        r.pc ≡ calling []
        → DoPending r (record r { pc = resetting; calling_pending_functors = false })

  -- A step of the reactor's thread, in the loop of `dispatch`. `demultiplex` returns when eventfd_ is
  -- readable, for another event or after its timeout; `readEventfd` may be called before or after
  -- other handlers.
  pub data Step (r : Reactor F) : Reactor F → Type 0 where
    wake : r.pc ≡ waiting → 0 < r.eventfd → Step r (record r { pc = woken })
    other_event : r.pc ≡ waiting → Step r (record r { pc = handling })
    read_eventfd : r.pc ≡ woken → Step r (record (drain r) { pc = handling })
    in_handler : {s : Reactor F} → Handling r s → Step r s
    handled : r.pc ≡ handling → Step r (record r { pc = testing })
    test_true : r.pc ≡ testing → r.has_pending_functors ≡ true → Step r (record r { pc = starting })
    test_false :
        r.pc ≡ testing → r.has_pending_functors ≡ false → Step r (record r { pc = looping })
    in_pending : {s : Reactor F} → DoPending r s → Step r s
    reset : r.pc ≡ resetting → Step r (record r { pc = looping; has_pending_functors = false })
    next_round : r.pc ≡ looping → r.dispatching ≡ true → Step r (record r { pc = waiting })
    leave : r.pc ≡ looping → r.dispatching ≡ false → Step r (record r { pc = stopped })

  -- A step of another thread: `queueInReactor` in its three parts, and `stop`, whose `wakeup` is
  -- counted with the others.
  pub data Other (r : Reactor F) : Reactor F → Type 0 where
    queue_push : (f : F) → Other r (record (push r f) { pushed = suc r.pushed })
    queue_flag :
        (n : ℕ)
        → r.pushed ≡ suc n
        → Other r (record r { pushed = n; flagged = suc r.flagged; has_pending_functors = true })
    queue_wakeup : (n : ℕ) → r.flagged ≡ suc n → Other r (record (wakeup r) { flagged = n })
    stop : Other r (record r { dispatching = false; flagged = suc r.flagged })

  pub data Reach (r : Reactor F) : Reactor F → Type 0 where
    here : Reach r r
    own : {s t : Reactor F} → Reach r s → Step s t → Reach r t
    other : {s t : Reactor F} → Reach r s → Other s t → Reach r t
