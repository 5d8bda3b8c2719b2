-- ===== src/Reactor/Timers.antt =====
-- libeva/Reactor/Reactor.cc: the timers of a reactor, `runAt`, `runAfter`, `runEvery` and `cancel`, in
-- the reactor's thread, where `runInReactor` calls its functor at once.
pub mod Runs
use libeva.Base.{ℕ, suc, Option, some}
use libeva.Ds.LazyList.{◌>>=◌}
use libeva.Reactor.Timer.{Clock}
use libeva.Reactor.TimeWheel.{TimeWheel, create_timer, add_timer_in_reactor, cancel_in_reactor}

module _ {C : Clock} where
  -- `addTimer` of the wheel; the result has the timer that is made.
  pub add_timer : TimeWheel C → C.Time → C.Interval → Option (TimeWheel C × ℕ)
  add_timer w when interval = do
    r ← create_timer w when interval
    w' ← add_timer_in_reactor r.0 r.1
    some (w', r.1)

  pub run_at : TimeWheel C → C.Time → Option (TimeWheel C × ℕ)
  unfolding add_timer
  run_at w time = add_timer w time C.zero_interval

  pub run_after : TimeWheel C → C.Interval → Option (TimeWheel C × ℕ)
  unfolding run_at
  run_after w delay =
      run_at (record w { reads = suc w.reads }) (C.add_interval (C.now w.reads) delay)

  pub run_every : TimeWheel C → C.Interval → Option (TimeWheel C × ℕ)
  unfolding add_timer
  run_every w interval =
      add_timer (record w { reads = suc w.reads }) (C.add_interval (C.now w.reads) interval)
        interval

  pub cancel : TimeWheel C → ℕ → Option (TimeWheel C)
  cancel w timer = cancel_in_reactor w timer
