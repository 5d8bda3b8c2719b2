-- ===== src/Thread/MyThreadPool.antt =====
-- libeva/Thread/MyThreadPool.h and MyThreadPool.cc: what one round of a thread of the pool takes, and
-- where `run` puts a task. Each operation of a queue holds that queue's lock, so it is a step of its
-- own; a round is what it does while no other thread acts. A task is only handed on, so its type is a
-- parameter. `none` is what `at` throws.
pub mod Rounds
pub mod Threads
use libeva.Base.{
  ℕ, zero, suc, ◌+◌, ◌%◌, ◌≡◌, refl, Bool, true, false, Option, none, some, List, [], ◌∷◌, ◌++◌,
  length, get_elem?, set, replicate,
}
use libeva.Ds.LazyList.{◌>>=◌}
use libeva.Ds.StealingQueue.{push_back, try_pop_back, try_steal_front}

-- What the pool needs of the queue that its threads share: a first-in first-out queue.
pub record Fifo (T : Type 0) : Type 1 where
  pub Queue : Type 0
  pub push : Queue → T → Option Queue
  pub try_pop : Queue → Option (Queue × Option T)
  pub Contains : Queue → List T → Type 0
  pub push_lem :
      (q : Queue) (xs : List T) (x : T)
      → Contains q xs
      → (q' : Queue) × (push q x ≡ some q') × Contains q' (xs ++ (x ∷ []))
  pub pop_empty_lem :
      (q : Queue) → Contains q [] → (q' : Queue) × (try_pop q ≡ some (q', none)) × Contains q' []
  pub pop_lem :
      (q : Queue) (xs : List T) (x : T)
      → Contains q (x ∷ xs)
      → (q' : Queue) × (try_pop q ≡ some (q', some x)) × Contains q' xs

pub record MyThreadPool (Q T : Type 0) : Type 0 where
  pub num_threads : ℕ
  pub running : Bool
  pub shared_queue : Q
  pub queues : List (List T)

module _ {Q T : Type 0} where
  pub init : Q → MyThreadPool Q T
  init shared = record { num_threads = 0; running = false; shared_queue = shared; queues = [] }

  -- One queue for each thread, the thread's index in the list.
  pub start : MyThreadPool Q T → ℕ → MyThreadPool Q T
  start p num_threads = record p {
    num_threads = num_threads;
    running = true;
    queues = p.queues ++ replicate num_threads [];
  }

  pub stop : MyThreadPool Q T → MyThreadPool Q T
  stop p = record p { running = false }

module _ {T : Type 0} where
  -- The loop of `stealWork` at `i`, `n` rounds left.
  pub steal_from : ℕ → ℕ → ℕ → List (List T) → Option (List (List T) × Option T)
  steal_from zero i idx queues = some (queues, none)
  steal_from (suc n) i idx queues =
      let rest = steal_from n (suc i) idx queues in
      let index = (idx + i + 1) % length queues in
      (do
        q ← get_elem? queues index
        let r = try_steal_front q
        elim r.1 [ some task ↦ some (set queues index r.0, some task) | none ↦ rest ])

  pub steal_work : ℕ → List (List T) → Option (List (List T) × Option T)
  unfolding steal_from
  steal_work idx queues = steal_from (length queues) 0 idx queues

module _ {T : Type 0} (F : Fifo T) where
  -- One round of the loop of `threadRoutine`: the task that is run, or none before `yield`.
  pub round : ℕ → MyThreadPool F.Queue T → Option (MyThreadPool F.Queue T × Option T)
  unfolding steal_work
  round idx p = do
    own ← get_elem? p.queues idx
    let r = try_pop_back own
    elim r.1 [
      | some task ↦ some (record p { queues = set p.queues idx r.0 }, some task)
      | none ↦ do
        s ← F.try_pop p.shared_queue
        elim s.1 [
          | some task ↦ some (record p { shared_queue = s.0 }, some task)
          | none ↦ do
            w ← steal_work idx p.queues
            some (record p { shared_queue = s.0; queues = w.0 }, w.1)
        ]
    ]

  -- `run`, called by the thread of the pool with an index or by another thread.
  pub run : MyThreadPool F.Queue T → Option ℕ → T → Option (MyThreadPool F.Queue T)
  run p (some idx) task = do
    own ← get_elem? p.queues idx
    some (record p { queues = set p.queues idx (push_back own task) })
  run p none task = do s ← F.push p.shared_queue task; some (record p { shared_queue = s })
