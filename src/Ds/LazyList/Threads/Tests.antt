-- ===== src/Ds/LazyList/Threads/Tests.antt =====
-- Two threads on a new list of numbers between 0 and 100.
use libeva.Base.{ℕ, refl, ltb, arith}
use libeva.Ds.Sorted.{IsOrder}
use libeva.Ds.LazyList.{init, validate}
use libeva.Ds.LazyList.Threads.{
  System, to_add, to_remove, idle, entering, found, has_pred, has_both, valid, walking, call, enter,
  stop, lock_pred, lock_curr, pass, take_lock, begin, Reach, here, later, by, moved,
}
use libeva.Ds.LazyList.Threads.Steps.{AtOnce}
use libeva.Ds.LazyList.Threads.Refines.{Reach-refines}

order : IsOrder ltb
order = record {
  irrefl = λ x. ground arith;
  trans = λ x y z h k. ground arith;
  cotrans = λ x y z h. ground arith;
}

-- The first thread is about to insert 5, the second to walk in search of it.
abbrev racing : System ℕ
racing = record {
  mem = take_lock (take_lock (begin ltb 0 100).mem 0 0) 1 0;
  pcs =
      moved
        (moved
          (moved
            (moved
              (moved
                (moved (moved (moved (λ t. idle) 0 (entering to_add 5)) 1 (entering to_remove 5)) 0
                  (walking to_add 5 0 1))
                0 (found to_add 5 0 1))
              0 (has_pred to_add 5 0 1))
            0 (has_both to_add 5 0 1))
          1 (walking to_remove 5 0 1))
        0 (valid to_add 5 0 1);
}

racing-Reach : Reach ltb 0 100 racing
unfolding init validate
racing-Reach =
    later
      (later
        (later
          (later
            (later
              (later
                (later (later here (by 0 (call to_add 5 tt refl)))
                  (by 1 (call to_remove 5 tt refl)))
                (by 0 (enter _ refl refl)))
              (by 0 (stop _ refl refl)))
            (by 0 (lock_pred _ refl refl)))
          (by 0 (lock_curr _ refl refl)))
        (by 1 (enter _ refl refl)))
      (by 0 (pass refl))

Reach-refines_example : AtOnce ltb 0 100 racing
Reach-refines_example = Reach-refines order racing-Reach
