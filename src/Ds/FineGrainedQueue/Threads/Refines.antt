-- ===== src/Ds/FineGrainedQueue/Threads/Refines.antt =====
-- The threads together do to the entries of the queue what single calls do.
use libeva.Base.{
  one_some, some_not_none, ℕ, ◌≡◌, refl, sym, ◌∙◌, ap, subst, inl, inr, none, some, List, [], arith,
  Bool-cases, ◌==◌,
}
use libeva.Ds.FineGrainedQueue.{init}
use libeva.Ds.FineGrainedQueue.Threads.{
  Shared, try_once, waiting, Pc, idle, made, writing, linking, moving, leaving, notifying, pushed,
  entering, has_head, in_tail, knows, sleeping, took, took_node, reading, deleting, popped,
  found_empty, faulted, woken, with_queue, System, Move, begin, Reach, here, later, by, notify_all,
  call_push, lock_tail, write_entry, link, move_tail, unlock_tail, call_pop, lock_head,
  lock_get_tail, read_tail, is_empty, sleep, take, take_node, unlock_took, unlock_node, read_entry,
  delete, wake, null_tail, null_head, fault,
}
use libeva.Ds.FineGrainedQueue.Threads.Chain.{Owner, nobody, part, held}
use libeva.Ds.FineGrainedQueue.Threads.Invariant.{Local, Inv}
use libeva.Ds.FineGrainedQueue.Threads.Steps.{
  Refined, AtOnce, Unread, not_let_go, not_read, mutex_step, dropped, taken, Linked-Entries,
}
use libeva.Ds.FineGrainedQueue.Threads.Writes.{new_step, fill_step, move_step, delete_step, owned}
use libeva.Ds.FineGrainedQueue.Threads.Pops.{
  same_some, Rests-quiet, head-tail, pops, no_fault, null_fault,
}

module _ {T : Type 0} where
  Move-Refined :
      (default : T) {u i : ℕ} {m m' : Shared T} {q p : Pc T} {pcs : ℕ → Pc T} {own : ℕ → Owner}
      {xs : List T}
      → Inv m pcs own i xs
      → Move default m u q m' p
      → Local m own u q
      → Refined m u q m' p pcs own xs
  Move-Refined d {u} {m = m} {q = q} {xs = xs} v (call_push x r) l =
      let (e, ans) = Rests-quiet m xs (made x m.queue.fresh) r in new_step u v d q x e ans
  Move-Refined d {u} {m = m} v (lock_tail {val} {n} free) l =
      mutex_step u v m.head_mutex (some u) (made val n) (writing val n) (λ t other h. h)
        (taken u free) (refl, l) refl (λ e. cc) tt
  Move-Refined d {u} v (write_entry {val} {n} c at) (h, (o, w)) =
      fill_step u v (record c { entry = val }) n (writing val n) (linking val n) h (o, w)
        (λ my at'. (h, my, (c.next, at'))) refl (λ e. cc) tt
  Move-Refined d {u} v (link {val} {n} c at) (h, (o, w), (b, e)) =
      fill_step u v (record c { next = some n }) n (linking val n) (moving val n) h (o, w)
        (λ my at'.
          (h, my, at' ∙ ap (λ y. some (record { entry = y.entry; next = some n })) (one_some at e)))
        refl (λ e. cc) tt
  Move-Refined d {u} {m = m} {pcs = pcs} {own = own} {xs = xs} v (move_tail {val} {n} {a} c at nx)
        (h, my, e) =
      let same : a ≡ n = same_some (sym nx ∙ ap (λ y. y.next) (one_some at e)) in
      subst
        (λ y.
          Refined m u (moving val n) (with_queue m (record m.queue { tail = y })) leaving pcs own
            xs)
        (sym same) (move_step u v val n h my e)
  Move-Refined d {u} {m = m} v unlock_tail l =
      mutex_step u v m.head_mutex none leaving notifying (λ t other h. h) (dropped u l) tt refl
        (λ e. cc) tt
  Move-Refined d {u} {m = m} {q = q} {xs = xs} v (call_pop w r) l =
      let (e, ans) = Rests-quiet m xs (entering w) r in
      mutex_step u v m.head_mutex m.tail_mutex q (entering w) (λ t other h. h) (λ t other h. h) tt e
        (λ e. cc) ans
  Move-Refined d {u} {m = m} v (lock_head {w} free) l =
      mutex_step u v (some u) m.tail_mutex (entering w) (has_head w) (taken u free) (λ t other h. h)
        refl refl (λ e. cc) tt
  Move-Refined d {u} {m = m} v (lock_get_tail {w} free) l =
      mutex_step u v m.head_mutex (some u) (has_head w) (in_tail w) (λ t other h. h) (taken u free)
        (l, refl) refl (λ e. cc) tt
  Move-Refined d {u} {m = m} {xs = xs} v (read_tail {w}) (h, g) =
      mutex_step u v m.head_mutex none (in_tail w) (knows w m.queue.tail) (λ t other h. h)
        (dropped u g) (h, λ ne. ne) refl (λ e. cc) (refl, head-tail xs v)
  Move-Refined d {u} {m = m} v (is_empty {a} e) (h, far) =
      mutex_step u v none m.tail_mutex (knows try_once a) found_empty (dropped u h) (λ t other h. h)
        tt (rw e refl) (λ e. cc) (inl (e, refl))
  Move-Refined d {u} {m = m} v (sleep {a} e) (h, far) =
      mutex_step u v none m.tail_mutex (knows waiting a) sleeping (dropped u h) (λ t other h. h) tt
        (rw e refl) (λ e. cc) (inl (e, refl))
  Move-Refined d {u} {m = m} {xs = xs} v (take {a} {b} c ne at nx) l =
      pops u xs try_once a b c (took m.queue.head c.entry) v l ne at nx (λ my. (l.0, my)) (λ e. cc)
        (λ e. inr (c.entry, ne, e, refl))
  Move-Refined d {u} {m = m} {xs = xs} v (take_node {a} {b} c ne at nx) l =
      pops u xs waiting a b c (took_node m.queue.head) v l ne at nx (λ my. (l.0, my)) (λ e. cc)
        (λ e. inr (c, ne, e, at, refl))
  Move-Refined d {u} {m = m} v (unlock_took {n} {x}) (h, my) =
      mutex_step u v none m.tail_mutex (took n x) (deleting n x) (dropped u h) (λ t other h. h) my
        refl (λ e. cc) tt
  Move-Refined d {u} {m = m} v (unlock_node {n}) (h, my) =
      mutex_step u v none m.tail_mutex (took_node n) (reading n) (dropped u h) (λ t other h. h) my
        refl (λ e. cc) tt
  Move-Refined d {u} {m = m} v (read_entry {n} c at) l =
      mutex_step u v m.head_mutex m.tail_mutex (reading n) (deleting n c.entry) (λ t other h. h)
        (λ t other h. h) l refl (λ e. cc) (c, at, refl)
  Move-Refined d {u} v (delete {n} {x} c at) l = delete_step u v n x l
  Move-Refined d {u} {m = m} v wake l =
      mutex_step u v m.head_mutex m.tail_mutex sleeping (entering waiting) (λ t other h. h)
        (λ t other h. h) tt refl (λ e. cc) tt
  Move-Refined d v (null_tail c at nx) (h, my, e) =
      some_not_none (sym nx ∙ ap (λ y. y.next) (one_some at e)) refl
  Move-Refined d {u} {xs = xs} v (null_head {w} {a} c ne at nx) l =
      absurd (null_fault u xs w a c v l ne at nx)
  Move-Refined d {u} {xs = xs} v (fault a t e) l = absurd (no_fault u xs t v l e)

  begin-Inv :
      (default : T) → Inv (begin default).mem (λ t. idle) (owned (λ a. nobody) 0 (part 0)) 0 []
  unfolding init
  begin-Inv default = record {
    linked = (refl, refl);
    last = (_, refl);
    above = λ a le. ground (arith, le);
    local = λ t. tt;
  }

  -- notify_all changes no thread but those that sleep.
  woken-Local :
      (m : Shared T) (own : ℕ → Owner) (t : ℕ) (p : Pc T)
      → Local m own t p
      → Local m own t (woken p)
  woken-Local m own t sleeping l = tt
  woken-Local m own t idle l = l
  woken-Local m own t (made val n) l = l
  woken-Local m own t (writing val n) l = l
  woken-Local m own t (linking val n) l = l
  woken-Local m own t (moving val n) l = l
  woken-Local m own t leaving l = l
  woken-Local m own t notifying l = l
  woken-Local m own t pushed l = l
  woken-Local m own t (entering w) l = l
  woken-Local m own t (has_head w) l = l
  woken-Local m own t (in_tail w) l = l
  woken-Local m own t (knows w a) l = l
  woken-Local m own t (took n x) l = l
  woken-Local m own t (took_node n) l = l
  woken-Local m own t (reading n) l = l
  woken-Local m own t (deleting n x) l = l
  woken-Local m own t (popped x) l = l
  woken-Local m own t found_empty l = l
  woken-Local m own t faulted l = l

  pub Reach-Inv :
      {default : T} {s : System T}
      → Reach default s
      → (own : ℕ → Owner) × (i : ℕ) × (xs : List T) × Inv s.mem s.pcs own i xs
  Reach-Inv {default} here = (_, _, _, begin-Inv default)
  Reach-Inv {default} (later {s} r (by t mv)) =
      let (own, i, xs, v) = Reach-Inv r in
      let (own', j, v', alive, ans, f) = Move-Refined default v mv (v.local t) in (own', j, _, v')
  Reach-Inv (later {s} r (notify_all t e)) =
      let (own, i, xs, v) = Reach-Inv r in
      (
        own,
        i,
        xs,
        record {
          linked = v.linked;
          last = v.last;
          above = v.above;
          local = λ u. elim (Bool-cases (u == t)) [
            | inl same ↦ rw same tt
            | inr other ↦ rw other (woken-Local s.mem own u (s.pcs u) (v.local u))
          ];
        },
      )

  Unread-held :
      (m : Shared T) (own : ℕ → Owner) (t : ℕ) {n : ℕ} {p : Pc T}
      → Unread p n
      → Local m own t p
      → own n ≡ held t
  Unread-held m own t not_let_go (h, my) = my.0
  Unread-held m own t not_read my = my.0

  -- In every state that any number of threads reach from the constructor by push, tryPop and
  -- waitAndPop, the nodes from the head to the tail hold a list of entries, and so they do after
  -- the next step of each thread. A push adds its value at the end in the step that moves the tail,
  -- a pop takes the first entry, or the node of it, in the step that moves the head, and no other
  -- step changes the list. getTail gives the address of the head just when the list is empty, and
  -- then tryPop says so and waitAndPop sleeps. No step faults, and none writes to the node that
  -- another thread has taken and not read.
  pub Reach-AtOnce : {default : T} {s : System T} → Reach default s → AtOnce default s
  Reach-AtOnce {default} {s} r =
      let (own, i, xs, v) = Reach-Inv r in
      (
        xs,
        Linked-Entries s.mem.queue.heap own i s.mem.queue.head xs s.mem.queue.tail v.linked,
        λ t m p mv.
            let (own', j, v', alive, ans, f) = Move-Refined default v mv (v.local t) in
            (
              Linked-Entries m.queue.heap own' j m.queue.head _ m.queue.tail v'.linked,
              alive,
              ans,
              λ u n other un. (f.mine u n other (Unread-held s.mem own u un (v.local u))).1,
            ),
      )
