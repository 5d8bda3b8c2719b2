-- ===== src/Thread/MyThreadPool/Threads.antt =====
-- libeva/Thread/MyThreadPool.h and MyThreadPool.cc: the threads of the pool among any number of others.
-- One step is one operation of a queue, which its mutex makes one, a test of running_, or a task. The
-- shared queue is the list of its entries. A task may call `run` while it runs.
pub mod Conserved
use libeva.Base.{
  ℕ, zero, suc, ◌+◌, ◌%◌, ◌≤◌, ◌<◌, ◌≡◌, Bool, true, false, Option, none, some, List, [], ◌∷◌, ◌++◌,
  length, get_elem?, set, replicate,
}
use libeva.Ds.StealingQueue.{push_back, try_pop_back, try_steal_front}

-- Where a thread of the pool stands in `threadRoutine`.
pub data Pc {ℓ} (T : Type ℓ) : Type ℓ where
  at_loop : Pc T  -- before `while ( running_ )`
  own_queue : Pc T  -- before `tryPopBack`
  common_queue : Pc T  -- before `tryPop`
  stealing : (i : ℕ) → Pc T  -- in the loop of `stealWork`
  runs : T → Pc T  -- in `task()`
  ended : Pc T

-- A thread of the pool is its index in `pcs`; `given` and `ran` are what the calls of `run` brought and
-- what has been run, the latest first.
pub record System {ℓ} (T : Type ℓ) : Type ℓ where
  pub running : Bool
  pub shared_queue : List T
  pub queues : List (List T)
  pub pcs : List (Pc T)
  pub given : List T
  pub ran : List T

module _ {ℓ} {T : Type ℓ} where
  -- A thread moves.
  abbrev pub moved : System T → ℕ → Pc T → System T
  moved s idx p = record s { pcs = set s.pcs idx p }

  -- A thread takes a task from a queue.
  abbrev pub took_from : System T → ℕ → ℕ → List T → T → System T
  took_from s idx index rest task = record s {
    queues = set s.queues index rest;
    pcs = set s.pcs idx (runs task);
  }

  pub data Step (s : System T) : System T → Type ℓ where
    goes_on :
        (idx : ℕ)
        → get_elem? s.pcs idx ≡ some at_loop
        → s.running ≡ true
        → Step s (moved s idx own_queue)
    ends :
        (idx : ℕ)
        → get_elem? s.pcs idx ≡ some at_loop
        → s.running ≡ false
        → Step s (moved s idx ended)
    pops :
        (idx : ℕ) {q rest : List T} {task : T}
        → get_elem? s.pcs idx ≡ some own_queue
        → get_elem? s.queues idx ≡ some q
        → try_pop_back q ≡ (rest, some task)
        → Step s (took_from s idx idx rest task)
    has_none :
        (idx : ℕ) {q rest : List T}
        → get_elem? s.pcs idx ≡ some own_queue
        → get_elem? s.queues idx ≡ some q
        → try_pop_back q ≡ (rest, none)
        → Step s (moved s idx common_queue)
    takes :
        (idx : ℕ) {task : T} {rest : List T}
        → get_elem? s.pcs idx ≡ some common_queue
        → s.shared_queue ≡ task ∷ rest
        → Step s (record s { shared_queue = rest; pcs = set s.pcs idx (runs task) })
    finds_none :
        (idx : ℕ)
        → get_elem? s.pcs idx ≡ some common_queue
        → s.shared_queue ≡ []
        → Step s (moved s idx (stealing 0))
    steals :
        (idx : ℕ) {i : ℕ} {q rest : List T} {task : T}
        → get_elem? s.pcs idx ≡ some (stealing i)
        → i < length s.queues
        → get_elem? s.queues ((idx + i + 1) % length s.queues) ≡ some q
        → try_steal_front q ≡ (rest, some task)
        → Step s (took_from s idx ((idx + i + 1) % length s.queues) rest task)
    looks_on :
        (idx : ℕ) {i : ℕ} {q rest : List T}
        → get_elem? s.pcs idx ≡ some (stealing i)
        → i < length s.queues
        → get_elem? s.queues ((idx + i + 1) % length s.queues) ≡ some q
        → try_steal_front q ≡ (rest, none)
        → Step s (moved s idx (stealing (suc i)))
    yields :
        (idx : ℕ) {i : ℕ}
        → get_elem? s.pcs idx ≡ some (stealing i)
        → length s.queues ≤ i
        → Step s (moved s idx at_loop)
    has_run :
        (idx : ℕ) {task : T}
        → get_elem? s.pcs idx ≡ some (runs task)
        → Step s (record s { pcs = set s.pcs idx at_loop; ran = task ∷ s.ran })
    -- `run` from a task, and from a thread that is not of the pool.
    gives_own :
        (idx : ℕ) {q : List T} {task : T} (new_task : T)
        → get_elem? s.pcs idx ≡ some (runs task)
        → get_elem? s.queues idx ≡ some q
        → Step s (record s {
          queues = set s.queues idx (push_back q new_task);
          given = new_task ∷ s.given;
        })
    gives :
        (new_task : T)
        → Step s (record s {
          shared_queue = s.shared_queue ++ (new_task ∷ []);
          given = new_task ∷ s.given;
        })
    stops : Step s (record s { running = false })

  -- After `start` of a number of threads.
  abbrev pub begin : ℕ → System T
  begin num_threads = record {
    running = true;
    shared_queue = [];
    queues = replicate num_threads [];
    pcs = replicate num_threads at_loop;
    given = [];
    ran = [];
  }

  pub data Reach (num_threads : ℕ) : System T → Type ℓ where
    here : Reach num_threads (begin num_threads)
    later : {s s' : System T} → Reach num_threads s → Step s s' → Reach num_threads s'
