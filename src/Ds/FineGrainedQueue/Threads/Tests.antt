-- ===== src/Ds/FineGrainedQueue/Threads/Tests.antt =====
-- A consumer and a producer on a new queue of numbers.
use libeva.Base.{ℕ, ◌≡◌, ◌≢◌, refl, none, some, arith}
use libeva.Ds.FineGrainedQueue.{init}
use libeva.Ds.FineGrainedQueue.Threads.{
  System, waiting, idle, made, writing, linking, entering, has_head, in_tail, knows, sleeping,
  pushed, moved, woken, at_first, Reach, here, later, by, call_push, lock_tail, write_entry,
  call_pop, lock_head, lock_get_tail, read_tail, new_node, set_cell,
}
use libeva.Ds.FineGrainedQueue.Threads.Steps.{AtOnce}
use libeva.Ds.FineGrainedQueue.Threads.Refines.{Reach-AtOnce}
use libeva.Ds.FineGrainedQueue.Threads.Lost.{wakeup-lost}

-- The thread 0 has found the queue empty and is about to sleep.
abbrev tested : System ℕ
tested = record {
  mem = record { queue = init 0; head_mutex = some 0; tail_mutex = none };
  pcs =
      moved
        (moved (moved (moved (λ t. idle) 0 (entering waiting)) 0 (has_head waiting)) 0
          (in_tail waiting))
        0 (knows waiting 0);
}

tested-Reach : Reach 0 tested
unfolding init
tested-Reach =
    later
      (later (later (later here (by 0 (call_pop waiting at_first))) (by 0 (lock_head refl)))
        (by 0 (lock_get_tail refl)))
      (by 0 read_tail)

-- Then the thread 1 has written its value, and not the link.
abbrev filling : System ℕ
filling = record {
  mem = record {
    queue = set_cell (new_node 0 (init 0)) 0 (some (record { entry = 7; next = none }));
    head_mutex = some 0;
    tail_mutex = some 1;
  };
  pcs = moved (moved (moved tested.pcs 1 (made 7 1)) 1 (writing 7 1)) 1 (linking 7 1);
}

filling-Reach : Reach 0 filling
unfolding init new_node set_cell
filling-Reach =
    later (later (later tested-Reach (by 1 (call_push 7 at_first))) (by 1 (lock_tail refl)))
      (by 1 (write_entry _ refl))

Reach-AtOnce_example : AtOnce 0 filling
Reach-AtOnce_example = Reach-AtOnce filling-Reach

wakeup-lost_example :
    (s' : System ℕ) × Reach 0 s'
    × (s'.pcs 0 ≡ sleeping)
    × (s'.pcs 1 ≡ pushed)
    × (s'.mem.queue.head ≢ s'.mem.queue.tail)
    × ((w : ℕ) → w ≢ 0 → w ≢ 1 → s'.pcs w ≡ woken (tested.pcs w))
unfolding init
wakeup-lost_example =
    wakeup-lost 0 tested 0 1 0 7 tested-Reach refl refl (omega arith) at_first refl
