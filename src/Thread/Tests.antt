-- ===== src/Thread/Tests.antt =====
-- Rounds of the thread pool at concrete inputs, the shared queue that of FineGrainedQueue.
use libeva.Base.{ℕ, ◌==◌, ◌≡◌, refl, Option, some, [], ◌∷◌, arith, true}
use libeva.Ds.FineGrainedQueue.{FineGrainedQueue}
use libeva.Ds.FineGrainedQueue
use libeva.Ds.FineGrainedQueue.Fifo.{Contains, init-Contains, push-Contains, try_pop-Contains}
use libeva.Ds.StealingQueue.{push_back, try_pop_back, try_steal_front}
use libeva.Thread.MyThreadPool.Threads.{
  System, at_loop, runs, Reach, here, later, goes_on, has_none, takes, finds_none, steals, has_run,
  gives_own, gives,
}
use libeva.Thread.MyThreadPool.Threads.Conserved.{Accounted, Reach-Accounted}
use libeva.Thread.MyThreadPool.{Fifo, MyThreadPool, round}
use libeva.Thread.MyThreadPool.Rounds.{Taken, round-Taken}

abbrev fine_grained : Fifo ℕ
fine_grained = record {
  Queue = FineGrainedQueue ℕ;
  push = FineGrainedQueue.push 0;
  try_pop = FineGrainedQueue.try_pop;
  Contains = Contains;
  push_lem = λ q xs x c. (push-Contains 0 q xs x c).1;
  pop_empty_lem = λ q c. try_pop-Contains q [] c;
  pop_lem = λ q xs x c. try_pop-Contains q (x ∷ xs) c;
}

abbrev empty_queue : FineGrainedQueue ℕ
empty_queue = FineGrainedQueue.init 0

-- Three threads; the third has two tasks.
abbrev pool : MyThreadPool (FineGrainedQueue ℕ) ℕ
pool = record {
  num_threads = 3;
  running = true;
  shared_queue = empty_queue;
  queues = [] ∷ [] ∷ (7 ∷ 8 ∷ []) ∷ [];
}

-- The first thread steals from the third.
round-Taken_example :
    (r : MyThreadPool (FineGrainedQueue ℕ) ℕ × Option ℕ) × (round fine_grained 0 pool ≡ some r)
    × Taken fine_grained 0 pool [] r
round-Taken_example = round-Taken fine_grained 0 pool [] (omega arith) (init-Contains 0)

-- The second of two threads has run 7, which gave 9, and the first has stolen 9.
abbrev stolen : System ℕ
stolen = record {
  running = true;
  shared_queue = [];
  queues = [] ∷ [] ∷ [];
  pcs = runs 9 ∷ at_loop ∷ [];
  given = 9 ∷ 7 ∷ [];
  ran = 7 ∷ [];
}

stolen-Reach : Reach 2 stolen
unfolding push_back try_pop_back try_steal_front
stolen-Reach =
    later
      (later
        (later
          (later
            (later
              (later
                (later
                  (later (later (later here (gives 7)) (goes_on 1 refl refl))
                    (has_none 1 refl refl refl))
                  (takes 1 refl refl))
                (gives_own 1 9 refl refl))
              (has_run 1 refl))
            (goes_on 0 refl refl))
          (has_none 0 refl refl refl))
        (finds_none 0 refl refl))
      (steals 0 refl (omega arith) refl refl)

Reach-Accounted_example : Accounted (λ task. task == 9) stolen
Reach-Accounted_example = Reach-Accounted 2 (λ task. task == 9) stolen-Reach
