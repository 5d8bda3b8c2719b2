-- ===== src/Ds/FineGrainedQueue.antt =====
-- ds/FineGrainedQueue/FineGrainedQueue.h, run by one thread at a time: a linked queue whose last
-- node is a dummy. The nodes stand on a heap; an address with no node is null or freed, and reading
-- it is `none`. `new` takes the address `fresh`. A mutex is free whenever it is taken.
pub mod Fifo
pub mod Calls
pub mod Destroy
pub mod Threads
use libeva.Base.{ℕ, zero, suc, ◌==◌, Bool, true, false, Option, none, some, if◌then◌else◌}
use libeva.Ds.LazyList.{◌>>=◌}

pub record Cell {ℓ} (T : Type ℓ) : Type ℓ where
  pub entry : T
  pub next : Option ℕ

pub record FineGrainedQueue {ℓ} (T : Type ℓ) : Type ℓ where
  pub heap : ℕ → Option (Cell T)
  pub head : ℕ
  pub tail : ℕ
  pub fresh : ℕ

module _ {ℓ} {T : Type ℓ} where
  abbrev pub put : (ℕ → Option (Cell T)) → ℕ → Option (Cell T) → ℕ → Option (Cell T)
  put h a n b = if b == a then n else h b

  -- `default` is what `T()` makes.
  pub init : T → FineGrainedQueue T
  init default = record {
    heap = put (λ a. none) 0 (some (record { entry = default; next = none }));
    head = 0;
    tail = 0;
    fresh = 1;
  }

  pub push : T → FineGrainedQueue T → T → Option (FineGrainedQueue T)
  push default q val = do
    old ← q.heap q.tail
    let new_node = some (record { entry = default; next = none })
    some (record q {
      heap =
          put (put q.heap q.fresh new_node) q.tail
            (some (record { entry = val; next = some q.fresh }));
      tail = q.fresh;
      fresh = suc q.fresh;
    })

  -- Takes the first node off and frees it.
  pub take_head : FineGrainedQueue T → Option (FineGrainedQueue T × T)
  take_head q = do
    n ← q.heap q.head
    a ← n.next
    some (record q { heap = put q.heap q.head none; head = a }, n.entry)

  -- `tryPop`: the entry, or none where the queue is empty.
  pub try_pop : FineGrainedQueue T → Option (FineGrainedQueue T × Option T)
  unfolding take_head
  try_pop q = if q.head == q.tail then some (q, none) else do r ← take_head q; some (r.0, some r.1)

  -- `waitAndPop`; none of the inner option while it waits.
  pub wait_and_pop : FineGrainedQueue T → Option (Option (FineGrainedQueue T × T))
  unfolding take_head
  wait_and_pop q = if q.head == q.tail then some none else do r ← take_head q; some (some r)

  -- The loop of `~FineGrainedQueue`, from the address of the head.
  pub free_all : ℕ → (ℕ → Option (Cell T)) → Option ℕ → Option (ℕ → Option (Cell T))
  free_all fuel h none = some h
  free_all zero h (some a) = none
  free_all (suc fuel) h (some a) = do node ← h a; free_all fuel (put h a none) node.next
