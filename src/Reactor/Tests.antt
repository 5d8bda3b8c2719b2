-- ===== src/Reactor/Tests.antt =====
-- The reactor's loop and its pool at concrete inputs.
use libeva.Base.{ℕ, ◌+◌, ◌<◌, ◌≡◌, ◌⊎◌, refl, true, some, [], ◌∷◌, ◌++◌, arith}
use libeva.Reactor.Pending.{
  Reactor, start, waiting, Reach, here, other, queue_push, queue_flag, queue_wakeup, push,
}
use libeva.Reactor.Pending.Order.{InOrder, Reach-InOrder}
use libeva.Reactor.Pending.Wakeup.{waiting-Woken, Runs, pending-Runs}
use libeva.Reactor.ThreadPool.{
  ReactorThreadPool, init, set_thread_num, calls, in_turn, served, calls-served,
}
use libeva.Reactor.ThreadPool

-- Another thread has queued the functor 7 and called `wakeup`.
abbrev queued_seven : Reactor ℕ
queued_seven = record (push start 7) {
  pushed = 0;
  flagged = 0;
  eventfd = 1;
  has_pending_functors = true;
}

queued_seven-Reach : Reach start queued_seven
queued_seven-Reach =
    other (other (other here (queue_push 7)) (queue_flag 0 refl)) (queue_wakeup 0 refl)

Reach-InOrder_example : InOrder queued_seven
Reach-InOrder_example = Reach-InOrder queued_seven-Reach

waiting-Woken_example :
    (0 < queued_seven.eventfd) ⊎ (0 < queued_seven.pushed + queued_seven.flagged)
waiting-Woken_example = waiting-Woken queued_seven queued_seven-Reach refl (λ e. cc)

pending-Runs_example :
    (t : Reactor ℕ) × Runs queued_seven t
    × (t.pc ≡ waiting)
    × (t.pending_functors ≡ [])
    × (t.executed ≡ [] ++ (7 ∷ []))
pending-Runs_example = pending-Runs queued_seven refl refl (omega arith)

calls-served_example :
    (p' : ReactorThreadPool ℕ) × (calls 3
        (ThreadPool.start (set_thread_num (init 9) 2) (λ i. i + 10))
      ≡ some (served 9 2 (λ i. i + 10) 3, p'))
calls-served_example = calls-served 9 2 3 (λ i. i + 10)
