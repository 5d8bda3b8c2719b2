-- ===== src/Ds/FineGrainedQueue/Threads.antt =====
-- ds/FineGrainedQueue/FineGrainedQueue.h run by any number of threads: one step is one access to what
-- other threads can see. A step on an address with no node, which is freed or null, is a fault of its
-- thread. `wait` of the condition variable gives the mutex back and sleeps in one step, and takes the
-- mutex again when it wakes.
pub mod Chain
pub mod Invariant
pub mod Steps
pub mod Writes
pub mod Pops
pub mod Refines
pub mod Lost
mod Tests
use libeva.Base.{ℕ, suc, ◌≡◌, ◌==◌, Bool, true, false, Option, none, some, if◌then◌else◌}
use libeva.Ds.FineGrainedQueue.{Cell, FineGrainedQueue, put, init}

pub record Shared {ℓ} (T : Type ℓ) : Type ℓ where
  pub queue : FineGrainedQueue T
  pub head_mutex : Option ℕ  -- the thread that has it
  pub tail_mutex : Option ℕ

-- `tryPop` or `waitAndPop`.
pub data Pop : Type 0 where
  try_once : Pop
  waiting : Pop

-- Where a thread stands, with its local variables.
pub data Pc {ℓ} (T : Type ℓ) : Type ℓ where
  idle : Pc T
  made : (val : T) (new_node : ℕ) → Pc T  -- before the guard of `push`
  writing : (val : T) (new_node : ℕ) → Pc T  -- before the entry is written
  linking : (val : T) (new_node : ℕ) → Pc T  -- before the link is written
  moving : (val : T) (new_node : ℕ) → Pc T  -- before the tail is moved
  leaving : Pc T  -- before the destructor of the guard
  notifying : Pc T  -- before `notify_all`
  pushed : Pc T
  entering : Pop → Pc T  -- before the mutex of the head is taken
  has_head : Pop → Pc T  -- before `getTail`
  in_tail : Pop → Pc T  -- in `getTail`, with its guard
  knows : Pop → (tail : ℕ) → Pc T  -- before the comparison
  sleeping : Pc T
  took : (node : ℕ) (ret : T) → Pc T  -- `tryPop`, before its guard ends
  took_node : (node : ℕ) → Pc T  -- `waitAndPop`, before its guard ends
  reading : (node : ℕ) → Pc T  -- before the entry is moved out
  deleting : (node : ℕ) (ret : T) → Pc T
  popped : T → Pc T
  found_empty : Pc T
  faulted : Pc T

pub record System {ℓ} (T : Type ℓ) : Type ℓ where
  pub mem : Shared T
  pub pcs : ℕ → Pc T

module _ {ℓ} {T : Type ℓ} where
  abbrev pub moved : (ℕ → Pc T) → ℕ → Pc T → ℕ → Pc T
  moved pcs t p u = if u == t then p else pcs u

  -- A thread that sleeps wakes and takes the mutex again.
  abbrev pub woken : Pc T → Pc T
  woken sleeping = entering waiting
  woken p = p

  -- Between two calls.
  pub data Rests : Pc T → Type ℓ where
    at_first : Rests idle
    after_push : Rests pushed
    after_pop : {x : T} → Rests (popped x)
    after_empty : Rests found_empty

  -- The node that the next step of a thread reads, writes or frees.
  pub data Touches (q : FineGrainedQueue T) : Pc T → ℕ → Type ℓ where
    to_write : {val : T} {n : ℕ} → Touches q (writing val n) q.tail
    to_link : {val : T} {n : ℕ} → Touches q (linking val n) q.tail
    to_move : {val : T} {n : ℕ} → Touches q (moving val n) q.tail
    to_take : {w : Pop} {a : ℕ} → q.head == a ≡ false → Touches q (knows w a) q.head
    to_read : {n : ℕ} → Touches q (reading n) n
    to_delete : {n : ℕ} {x : T} → Touches q (deleting n x) n

  -- `make_unique<Node>()`.
  pub new_node : T → FineGrainedQueue T → FineGrainedQueue T
  new_node default q = record q {
    heap = put q.heap q.fresh (some (record { entry = default; next = none }));
    fresh = suc q.fresh;
  }

  pub set_cell : FineGrainedQueue T → ℕ → Option (Cell T) → FineGrainedQueue T
  set_cell q a c = record q { heap = put q.heap a c }

  abbrev pub with_queue : Shared T → FineGrainedQueue T → Shared T
  with_queue m q = record m { queue = q }

module _ {ℓ} {T : Type ℓ} (default : T) where
  -- A step of the thread `t`. A thread that finds a mutex taken makes no step.
  pub data Move (m : Shared T) (t : ℕ) : Pc T → Shared T → Pc T → Type ℓ where
    call_push :
        {p : Pc T} (v : T)
        → Rests p
        → Move m t p (with_queue m (new_node default m.queue)) (made v m.queue.fresh)
    lock_tail :
        {val : T} {n : ℕ}
        → m.tail_mutex ≡ none
        → Move m t (made val n) (record m { tail_mutex = some t }) (writing val n)
    write_entry :
        {val : T} {n : ℕ} (c : Cell T)
        → m.queue.heap m.queue.tail ≡ some c
        → Move m t
            (writing val n)
            (with_queue m (set_cell m.queue m.queue.tail (some (record c { entry = val }))))
            (linking val n)
    link :
        {val : T} {n : ℕ} (c : Cell T)
        → m.queue.heap m.queue.tail ≡ some c
        → Move m t
            (linking val n)
            (with_queue m (set_cell m.queue m.queue.tail (some (record c { next = some n }))))
            (moving val n)
    move_tail :
        {val : T} {n a : ℕ} (c : Cell T)
        → m.queue.heap m.queue.tail ≡ some c
        → c.next ≡ some a
        → Move m t (moving val n) (with_queue m (record m.queue { tail = a })) leaving
    unlock_tail : Move m t leaving (record m { tail_mutex = none }) notifying
    call_pop : {p : Pc T} (w : Pop) → Rests p → Move m t p m (entering w)
    lock_head :
        {w : Pop}
        → m.head_mutex ≡ none
        → Move m t (entering w) (record m { head_mutex = some t }) (has_head w)
    lock_get_tail :
        {w : Pop}
        → m.tail_mutex ≡ none
        → Move m t (has_head w) (record m { tail_mutex = some t }) (in_tail w)
    read_tail :
        {w : Pop} → Move m t (in_tail w) (record m { tail_mutex = none }) (knows w m.queue.tail)
    is_empty :
        {a : ℕ}
        → m.queue.head == a ≡ true
        → Move m t (knows try_once a) (record m { head_mutex = none }) found_empty
    sleep :
        {a : ℕ}
        → m.queue.head == a ≡ true
        → Move m t (knows waiting a) (record m { head_mutex = none }) sleeping
    take :
        {a b : ℕ} (c : Cell T)
        → m.queue.head == a ≡ false
        → m.queue.heap m.queue.head ≡ some c
        → c.next ≡ some b
        → Move m t
            (knows try_once a)
            (with_queue m (record m.queue { head = b }))
            (took m.queue.head c.entry)
    take_node :
        {a b : ℕ} (c : Cell T)
        → m.queue.head == a ≡ false
        → m.queue.heap m.queue.head ≡ some c
        → c.next ≡ some b
        → Move m t
            (knows waiting a)
            (with_queue m (record m.queue { head = b }))
            (took_node m.queue.head)
    unlock_took :
        {n : ℕ} {x : T} → Move m t (took n x) (record m { head_mutex = none }) (deleting n x)
    unlock_node : {n : ℕ} → Move m t (took_node n) (record m { head_mutex = none }) (reading n)
    read_entry :
        {n : ℕ} (c : Cell T) → m.queue.heap n ≡ some c → Move m t (reading n) m (deleting n c.entry)
    delete :
        {n : ℕ} {x : T} (c : Cell T)
        → m.queue.heap n ≡ some c
        → Move m t (deleting n x) (with_queue m (set_cell m.queue n none)) (popped x)
    -- A thread that sleeps may wake without a call of notify_all.
    wake : Move m t sleeping m (entering waiting)
    -- A null link that would become the head or the tail.
    null_tail :
        {val : T} {n : ℕ} (c : Cell T)
        → m.queue.heap m.queue.tail ≡ some c
        → c.next ≡ none
        → Move m t (moving val n) m faulted
    null_head :
        {w : Pop} {a : ℕ} (c : Cell T)
        → m.queue.head == a ≡ false
        → m.queue.heap m.queue.head ≡ some c
        → c.next ≡ none
        → Move m t (knows w a) m faulted
    fault : {p : Pc T} (a : ℕ) → Touches m.queue p a → m.queue.heap a ≡ none → Move m t p m faulted

  pub data Step (s : System T) : System T → Type ℓ where
    by :
        (t : ℕ) {m : Shared T} {p : Pc T}
        → Move s.mem t (s.pcs t) m p
        → Step s (record { mem = m; pcs = moved s.pcs t p })
    notify_all :
        (t : ℕ)
        → s.pcs t ≡ notifying
        → Step s (record { mem = s.mem; pcs = moved (λ u. woken (s.pcs u)) t pushed })

  abbrev pub begin : System T
  begin = record {
    mem = record { queue = init default; head_mutex = none; tail_mutex = none };
    pcs = λ t. idle;
  }

  pub data Reach : System T → Type ℓ where
    here : Reach begin
    later : {s s' : System T} → Reach s → Step s s' → Reach s'
