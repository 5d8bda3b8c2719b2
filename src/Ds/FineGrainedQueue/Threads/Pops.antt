-- ===== src/Ds/FineGrainedQueue/Threads/Pops.antt =====
-- Where the step of a pop leads, and that no step reads a node that is not there.
use libeva.Base.{
  one_some, some_not_none, ℕ, suc, ◌≡◌, ◌≢◌, refl, sym, ◌∙◌, ap, subst, false, none, some, List, [],
  ◌∷◌, arith, ◌==◌,
}
use libeva.Ds.FineGrainedQueue.{Cell}
use libeva.Ds.FineGrainedQueue.Fifo.{first_of}
use libeva.Ds.FineGrainedQueue.Threads.{
  Shared, Pop, Pc, knows, faulted, with_queue, Rests, at_first, after_push, after_pop, after_empty,
  Touches, to_write, to_link, to_move, to_take, to_read, to_delete,
}
use libeva.Ds.FineGrainedQueue.Threads.Chain.{Owner, held, Linked, head-apart}
use libeva.Ds.FineGrainedQueue.Threads.Invariant.{Mine, Local, Inv}
use libeva.Ds.FineGrainedQueue.Threads.Steps.{Answers, Refined, effect, is_none}
use libeva.Ds.FineGrainedQueue.Threads.Writes.{take_step, owned}

pub same_some : {a b : ℕ} → some a ≡ some b → a ≡ b
same_some e = cc

module _ {T : Type 0} where
  -- A step between two calls.
  pub Rests-quiet :
      (m : Shared T) (xs : List T) {q : Pc T} (p : Pc T)
      → Rests q
      → (xs ≡ effect m q xs) × Answers m xs q p
  Rests-quiet m xs p at_first = (refl, tt)
  Rests-quiet m xs p after_push = (refl, tt)
  Rests-quiet m xs p after_pop = (refl, tt)
  Rests-quiet m xs p after_empty = (refl, tt)

  module _ {m : Shared T} {pcs : ℕ → Pc T} {own : ℕ → Owner} {i : ℕ} where
    -- The head is the tail where some_not_none are no entries.
    pub head-tail :
        (xs : List T) → Inv m pcs own i xs → (m.queue.head == m.queue.tail) ≡ is_none (first_of xs)
    head-tail [] v = ground (arith, v.linked)
    head-tail (x ∷ xs) v =
        let (b, e, o, l) = v.linked in
        ground (arith, head-apart m.queue.heap own i m.queue.head b xs m.queue.tail o l)

    -- The step of a pop that has not found the head at the tail.
    pub pops :
        (u : ℕ) (xs : List T) (w : Pop) (a b : ℕ) (c : Cell T) (p : Pc T)
        → Inv m pcs own i xs
        → Local m own u (knows w a)
        → m.queue.head == a ≡ false
        → m.queue.heap m.queue.head ≡ some c
        → c.next ≡ some b
        → (Mine
              (with_queue m (record m.queue { head = b }))
              (owned own m.queue.head (held u))
              u
              m.queue.head
            → Local
                (with_queue m (record m.queue { head = b }))
                (owned own m.queue.head (held u))
                u
                p)
        → p ≢ faulted
        → (first_of xs ≡ some c.entry → Answers m xs (knows w a) p)
        → Refined m u (knows w a) (with_queue m (record m.queue { head = b })) p pcs own xs
    pops u [] w a b c p v (h, far) ne at nx mine alive ans =
        absurd (far (λ q. ground (arith, q, ne)) v.linked.0)
    pops u (x ∷ ys) w a b c p v (h, far) ne at nx mine alive ans =
        let (b', e, o, l) = v.linked in
        let one : c ≡ record { entry = x; next = some b' } = one_some at e in
        let to : some b ≡ some b' = sym nx ∙ ap (λ y. y.next) one in
        let it : c.entry ≡ x = ap (λ y. y.entry) one in
        take_step u x ys b (knows w a) p v
          (e ∙ ap (λ y. some (record { entry = x; next = y })) (sym to)) o
          (subst (λ y. Linked m.queue.heap own (suc i) y ys m.queue.tail) (sym (same_some to)) l) h
          mine (rw ne refl) alive (ans (ap some (sym it)))

    -- No step of a thread reads a node that is not some_not_none.
    pub no_fault :
        (u : ℕ) (xs : List T) {q : Pc T} {a : ℕ}
        → Touches m.queue q a
        → Inv m pcs own i xs
        → Local m own u q
        → m.queue.heap a ≢ none
    no_fault u xs to_write v l e = some_not_none v.last.1 e
    no_fault u xs to_link v l e = some_not_none v.last.1 e
    no_fault u xs to_move v l e = some_not_none v.last.1 e
    no_fault u [] (to_take ne) v (h, far) e = far (λ q. ground (arith, q, ne)) v.linked.0
    no_fault u (x ∷ xs) (to_take ne) v l e = let (b, at, o, r) = v.linked in some_not_none at e
    no_fault u xs to_read v (o, (c, at)) e = some_not_none at e
    no_fault u xs to_delete v (o, (c, at)) e = some_not_none at e

    pub null_fault :
        (u : ℕ) (xs : List T) (w : Pop) (a : ℕ) (c : Cell T)
        → Inv m pcs own i xs
        → Local m own u (knows w a)
        → m.queue.head == a ≡ false
        → m.queue.heap m.queue.head ≡ some c
        → c.next ≢ none
    null_fault u [] w a c v (h, far) ne at nx = far (λ q. ground (arith, q, ne)) v.linked.0
    null_fault u (x ∷ xs) w a c v l ne at nx =
        let (b, e, o, r) = v.linked in
        some_not_none (sym nx ∙ ap (λ y. y.next) (one_some at e)) refl
