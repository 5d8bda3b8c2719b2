-- ===== src/Ds/LazyList/Threads.antt =====
-- ds/LazyList/LazyList.h with the locks of utility/SpinLock.h, run by any number of threads: one
-- step is one access to a node that other threads can see. A step on an address with no node, which
-- is freed or null, is a fault of its thread. The accesses of a thread under both its locks are one
-- step in three places: the reads of `validate`, the making and linking of a new node, and the mark
-- and the unlinking of a removed one, so a walk does not see a node that is marked and still
-- linked.
pub mod Place
pub mod Invariant
pub mod Located
pub mod Adds
pub mod Removes
pub mod Steps
pub mod Refines
mod Tests
use libeva.Base.{
  ℕ, ◌≡◌, ◌==◌, ◌⊎◌, Bool, true, false, not, ◌&&◌, ◌||◌, Option, none, some, if◌then◌else◌,
}
use libeva.Ds.LazyList.{
  Node, LazyList, store, init, equal, validate, overwrite, link_new, mark_unlink, free_node,
}

-- The nodes, and for each lock the thread that has it.
pub record Shared {ℓ} (T : Type ℓ) : Type ℓ where
  pub list : LazyList T
  pub holder : ℕ → Option ℕ

pub data Write : Type 0 where
  to_add : Write
  to_remove : Write

-- What a round of the outer loop ends with: another round, or an answer.
pub data Next {ℓ} (T : Type ℓ) : Type ℓ where
  again : Write → T → Next T
  answer : Bool → Next T

-- Where a thread stands, with its local variables.
pub data Pc {ℓ} (T : Type ℓ) : Type ℓ where
  idle : Pc T
  entering : (w : Write) (key : T) → Pc T  -- the head of `while ( true )`
  walking : (w : Write) (key : T) (pred curr : ℕ) → Pc T  -- the inner loop
  found : (w : Write) (key : T) (pred curr : ℕ) → Pc T  -- before the outer guard
  has_pred : (w : Write) (key : T) (pred curr : ℕ) → Pc T  -- before the inner guard
  has_both : (w : Write) (key : T) (pred curr : ℕ) → Pc T  -- before `validate`
  valid : (w : Write) (key : T) (pred curr : ℕ) → Pc T
  freeing : (pred curr : ℕ) → Pc T  -- before `delete curr`
  deleted : (pred curr : ℕ) → Pc T  -- before the inner guard's destructor, in `remove`
  leaving : (next : Next T) (pred curr : ℕ) → Pc T  -- before the inner guard's destructor
  leaving_pred : (next : Next T) (pred : ℕ) → Pc T  -- before the outer guard's destructor
  returned : Bool → Pc T
  looking : (key : T) → Pc T  -- `get`
  reading : (key : T) (curr : ℕ) → Pc T  -- the loop of `get`
  got : T → Pc T
  asking : (key : T) (curr : ℕ) → Pc T  -- the loop of `contains`
  faulted : Pc T

pub record System {ℓ} (T : Type ℓ) : Type ℓ where
  pub mem : Shared T
  pub pcs : ℕ → Pc T

module _ {ℓ} {T : Type ℓ} where
  -- A thread moves.
  abbrev pub moved : (ℕ → Pc T) → ℕ → Pc T → ℕ → Pc T
  moved pcs t p u = if u == t then p else pcs u

  -- `test_and_set` and `clear` of the flag of a node.
  abbrev pub take_lock : Shared T → ℕ → ℕ → Shared T
  take_lock m a t = record m { holder = λ b. if b == a then some t else m.holder b }

  abbrev pub drop_lock : Shared T → ℕ → Shared T
  drop_lock m a = record m { holder = λ b. if b == a then none else m.holder b }

  -- Between two calls.
  abbrev pub Rests : Pc T → Type 0
  Rests idle = Unit
  Rests (returned b) = Unit
  Rests (got x) = Unit
  Rests p = ⊥

  -- The nodes that the next step of a thread reads or writes.
  abbrev pub Touches : LazyList T → Pc T → ℕ → Type 0
  Touches l (entering w key) a = a ≡ l.head
  Touches l (walking w key pred curr) a = a ≡ curr
  Touches l (found w key pred curr) a = a ≡ pred
  Touches l (has_pred w key pred curr) a = a ≡ curr
  Touches l (has_both w key pred curr) a = (a ≡ pred) ⊎ (a ≡ curr)
  Touches l (valid w key pred curr) a = (a ≡ pred) ⊎ (a ≡ curr)
  Touches l (freeing pred curr) a = a ≡ curr
  Touches l (deleted pred curr) a = a ≡ curr
  Touches l (leaving next pred curr) a = a ≡ curr
  Touches l (leaving_pred next pred) a = a ≡ pred
  Touches l (looking key) a = a ≡ l.head
  Touches l (reading key curr) a = a ≡ curr
  Touches l (asking key curr) a = a ≡ curr
  Touches l p a = ⊥

  -- Where the outer guard's destructor leads.
  abbrev pub go_on : Next T → Pc T
  go_on (again w key) = entering w key
  go_on (answer b) = returned b

module _ {ℓ} {T : Type ℓ} (cmp : T → T → Bool) (default max_val : T) where
  -- A step of the thread `t`. A call is of a key below the largest value, and a thread that finds a
  -- lock taken makes no step.
  pub data Move (m : Shared T) (t : ℕ) : Pc T → Shared T → Pc T → Type ℓ where
    call :
        {p : Pc T} (w : Write) (key : T)
        → Rests p
        → cmp key max_val ≡ true
        → Move m t p m (entering w key)
    enter :
        {w : Write} {key : T} {a : ℕ} (n : Node T)
        → m.list.heap m.list.head ≡ some n
        → n.next ≡ some a
        → Move m t (entering w key) m (walking w key m.list.head a)
    step_on :
        {w : Write} {key : T} {pred curr a : ℕ} (n : Node T)
        → m.list.heap curr ≡ some n
        → cmp n.entry key ≡ true
        → n.next ≡ some a
        → Move m t (walking w key pred curr) m (walking w key curr a)
    stop :
        {w : Write} {key : T} {pred curr : ℕ} (n : Node T)
        → m.list.heap curr ≡ some n
        → cmp n.entry key ≡ false
        → Move m t (walking w key pred curr) m (found w key pred curr)
    lock_pred :
        {w : Write} {key : T} {pred curr : ℕ} (n : Node T)
        → m.list.heap pred ≡ some n
        → m.holder pred ≡ none
        → Move m t (found w key pred curr) (take_lock m pred t) (has_pred w key pred curr)
    lock_curr :
        {w : Write} {key : T} {pred curr : ℕ} (n : Node T)
        → m.list.heap curr ≡ some n
        → m.holder curr ≡ none
        → Move m t (has_pred w key pred curr) (take_lock m curr t) (has_both w key pred curr)
    pass :
        {w : Write} {key : T} {pred curr : ℕ}
        → validate m.list pred curr ≡ some true
        → Move m t (has_both w key pred curr) m (valid w key pred curr)
    fail :
        {w : Write} {key : T} {pred curr : ℕ}
        → validate m.list pred curr ≡ some false
        → Move m t (has_both w key pred curr) m (leaving (again w key) pred curr)
    add_over :
        {key : T} {pred curr : ℕ} (c : Node T)
        → m.list.heap curr ≡ some c
        → equal cmp c.entry key ≡ true
        → Move m t
            (valid to_add key pred curr)
            (record m { list = overwrite m.list key curr c })
            (leaving (answer true) pred curr)
    add_new :
        {key : T} {pred curr : ℕ} (p c : Node T)
        → m.list.heap pred ≡ some p
        → m.list.heap curr ≡ some c
        → equal cmp c.entry key ≡ false
        → Move m t
            (valid to_add key pred curr)
            (record m { list = link_new m.list key pred p curr })
            (leaving (answer true) pred curr)
    remove_none :
        {key : T} {pred curr : ℕ} (c : Node T)
        → m.list.heap curr ≡ some c
        → equal cmp c.entry key ≡ false
        → Move m t (valid to_remove key pred curr) m (leaving (answer false) pred curr)
    remove_one :
        {key : T} {pred curr : ℕ} (p c : Node T)
        → m.list.heap pred ≡ some p
        → m.list.heap curr ≡ some c
        → equal cmp c.entry key ≡ true
        → Move m t
            (valid to_remove key pred curr)
            (record m { list = mark_unlink m.list pred p curr c })
            (freeing pred curr)
    free :
        {pred curr : ℕ} (c : Node T)
        → m.list.heap curr ≡ some c
        → Move m t
            (freeing pred curr)
            (record m { list = free_node m.list curr })
            (deleted pred curr)
    unlock_deleted :
        {pred curr : ℕ} (c : Node T)
        → m.list.heap curr ≡ some c
        → Move m t (deleted pred curr) (drop_lock m curr) (leaving_pred (answer true) pred)
    unlock_curr :
        {next : Next T} {pred curr : ℕ} (c : Node T)
        → m.list.heap curr ≡ some c
        → Move m t (leaving next pred curr) (drop_lock m curr) (leaving_pred next pred)
    unlock_pred :
        {next : Next T} {pred : ℕ} (p : Node T)
        → m.list.heap pred ≡ some p
        → Move m t (leaving_pred next pred) (drop_lock m pred) (go_on next)
    call_get : {p : Pc T} (key : T) → Rests p → Move m t p m (looking key)
    enter_get :
        {key : T} {a : ℕ} (n : Node T)
        → m.list.heap m.list.head ≡ some n
        → n.next ≡ some a
        → Move m t (looking key) m (reading key a)
    step_get :
        {key : T} {curr a : ℕ} (n : Node T)
        → m.list.heap curr ≡ some n
        → cmp n.entry key ≡ true
        → n.next ≡ some a
        → Move m t (reading key curr) m (reading key a)
    end_get :
        {key : T} {curr : ℕ} (n : Node T)
        → m.list.heap curr ≡ some n
        → cmp n.entry key ≡ false
        → Move m t
            (reading key curr)
            m
            (got (if n.marked || not (equal cmp n.entry key) then default else n.entry))
    call_contains : {p : Pc T} (key : T) → Rests p → Move m t p m (asking key m.list.head)
    step_contains :
        {key : T} {curr a : ℕ} (n : Node T)
        → m.list.heap curr ≡ some n
        → cmp n.entry key ≡ true
        → n.next ≡ some a
        → Move m t (asking key curr) m (asking key a)
    end_contains :
        {key : T} {curr : ℕ} (n : Node T)
        → m.list.heap curr ≡ some n
        → cmp n.entry key ≡ false
        → Move m t (asking key curr) m (returned (equal cmp n.entry key && not n.marked))
    -- `curr = curr->next_` with a null link, which the next test reads through.
    null_link :
        {w : Write} {key : T} {pred curr : ℕ} (n : Node T)
        → m.list.heap curr ≡ some n
        → cmp n.entry key ≡ true
        → n.next ≡ none
        → Move m t (walking w key pred curr) m faulted
    null_get :
        {key : T} {curr : ℕ} (n : Node T)
        → m.list.heap curr ≡ some n
        → cmp n.entry key ≡ true
        → n.next ≡ none
        → Move m t (reading key curr) m faulted
    null_contains :
        {key : T} {curr : ℕ} (n : Node T)
        → m.list.heap curr ≡ some n
        → cmp n.entry key ≡ true
        → n.next ≡ none
        → Move m t (asking key curr) m faulted
    fault : {p : Pc T} (a : ℕ) → Touches m.list p a → m.list.heap a ≡ none → Move m t p m faulted

  pub data Step (s : System T) : System T → Type ℓ where
    by :
        (t : ℕ) {m : Shared T} {p : Pc T}
        → Move s.mem t (s.pcs t) m p
        → Step s (record { mem = m; pcs = moved s.pcs t p })

  -- After the constructor no lock is taken.
  abbrev pub begin : System T
  begin = record {
    mem = record { list = init default max_val; holder = λ a. none };
    pcs = λ t. idle;
  }

  pub data Reach : System T → Type ℓ where
    here : Reach begin
    later : {s s' : System T} → Reach s → Step s s' → Reach s'
