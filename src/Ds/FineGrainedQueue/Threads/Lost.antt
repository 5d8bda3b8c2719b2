-- ===== src/Ds/FineGrainedQueue/Threads/Lost.antt =====
-- How a call of notify_all misses a thread that is about to sleep.
use libeva.Base.{ℕ, ◌≡◌, ◌≢◌, refl, sym, ◌∙◌, ap, subst, true, none, some, arith, ◌==◌}
use libeva.Ds.FineGrainedQueue.{Cell, put}
use libeva.Ds.FineGrainedQueue.Threads.{
  Shared, waiting, Pc, notifying, pushed, knows, sleeping, moved, woken, Rests, System, Move, Reach,
  later, by, notify_all, call_push, lock_tail, write_entry, link, move_tail, unlock_tail, sleep,
  new_node, set_cell,
}
use libeva.Ds.FineGrainedQueue.Threads.Chain.{nobody, part, last_part}
use libeva.Ds.FineGrainedQueue.Threads.Writes.{put_same, put_other, head_part, nobody_part}
use libeva.Ds.FineGrainedQueue.Threads.Refines.{Reach-Inv}

module _ {T : Type 0} where
  moved_same : (pcs : ℕ → Pc T) (t : ℕ) (p : Pc T) → moved pcs t p t ≡ p
  moved_same pcs t p = ground arith

  moved_other : (pcs : ℕ → Pc T) (t : ℕ) (p : Pc T) (u : ℕ) → u ≢ t → moved pcs t p u ≡ pcs u
  moved_other pcs t p u ne = ground (arith, ne)

  -- A state where the thread `u` stands at `p` and the others where they stood.
  abbrev Alone : T → (ℕ → Pc T) → ℕ → Shared T → Pc T → Type 0
  Alone default pcs u m p =
      (s : System T) × Reach default s
      × (s.mem ≡ m)
      × (s.pcs u ≡ p)
      × ((w : ℕ) → w ≢ u → s.pcs w ≡ pcs w)

  go :
      {default : T} {pcs : ℕ → Pc T} {u : ℕ} {m m' : Shared T} {q p : Pc T}
      → Alone default pcs u m q
      → Move default m u q m' p
      → Alone default pcs u m' p
  go {default} {pcs} {u} {m' = m'} {q = q} {p} (s, r, e, at, rest) mv = (
    record { mem = m'; pcs = moved s.pcs u p },
    later r (
        by u (
          subst (λ y. Move default s.mem u y m' p) (sym at)
            (subst (λ y. Move default y u q m' p) (sym e) mv))),
    refl,
    moved_same s.pcs u p,
    λ w ne. moved_other s.pcs u p w ne ∙ rest w ne,
  )

  -- The queue after a push.
  pub after : T → Shared T → T → Cell T → Shared T
  after default m val c =
      let q = set_cell (new_node default m.queue) m.queue.tail (some (record c { entry = val })) in
      record m {
        queue =
            record (set_cell q m.queue.tail
              (some (record { entry = val; next = some m.queue.fresh }))) { tail = m.queue.fresh };
        tail_mutex = none;
      }

  -- A push with no step of another thread.
  push_through :
      (default : T) (s : System T) (u : ℕ) (val : T) (c : Cell T)
      → Reach default s
      → Rests (s.pcs u)
      → s.mem.tail_mutex ≡ none
      → s.mem.queue.heap s.mem.queue.tail ≡ some c
      → s.mem.queue.tail ≢ s.mem.queue.fresh
      → Alone default s.pcs u (after default s.mem val c) notifying
  unfolding new_node set_cell after
  push_through default s u val c r rests free at ne =
      let heap = s.mem.queue.heap in
      let tail = s.mem.queue.tail in
      let fresh = s.mem.queue.fresh in
      let made_one = (new_node default s.mem.queue).heap in
      let filled = put made_one tail (some (record c { entry = val })) in
      let one = go {u = u} (s, r, refl, refl, λ w ne. refl) (call_push val rests) in
      let two = go one (lock_tail free) in
      let three = go two (write_entry c (put_other heap fresh tail _ ne ∙ at)) in
      let four = go three (link (record c { entry = val }) (put_same made_one tail _)) in
      let five =
        go four
          (move_tail (record { entry = val; next = some fresh }) (put_same filled tail _) refl) in
      go five unlock_tail

  -- From every state that is reached, where a waitAndPop has found the queue empty and holds the head
  -- mutex before it sleeps, and another thread is between its calls with the tail mutex free, a push
  -- of the other thread can run to its end and the first thread then sleep, so that the state
  -- reached has a queue that is not empty, a thread that sleeps, and no call of notify_all to
  -- come from the push, while the other threads stand where they were or were woken.
  pub wakeup-lost :
      (default : T) (s : System T) (t u a : ℕ) (val : T)
      → Reach default s
      → s.pcs t ≡ knows waiting a
      → s.mem.queue.head == a ≡ true
      → t ≢ u
      → Rests (s.pcs u)
      → s.mem.tail_mutex ≡ none
      → (s' : System T) × Reach default s'
        × (s'.pcs t ≡ sleeping)
        × (s'.pcs u ≡ pushed)
        × (s'.mem.queue.head ≢ s'.mem.queue.tail)
        × ((w : ℕ) → w ≢ t → w ≢ u → s'.pcs w ≡ woken (s.pcs w))
  unfolding after new_node set_cell
  wakeup-lost default s t u a val r knew empty other rests free =
      let (own, i, xs, v) = Reach-Inv r in
      let fresh_free : own s.mem.queue.fresh ≡ nobody = v.above s.mem.queue.fresh (omega arith) in
      let (k, o, le) =
        last_part s.mem.queue.heap own i s.mem.queue.head xs s.mem.queue.tail v.linked in
      let (c, at) = v.last in
      let (s1, r1, e1, at1, rest1) =
        push_through default s u val c r rests free at
          (λ same. nobody_part fresh_free (subst (λ y. own y ≡ part k) same o)) in
      let pcs2 : ℕ → Pc T = moved (λ w. woken (s1.pcs w)) u pushed in
      let r2 : Reach default (record { mem = s1.mem; pcs = pcs2 }) = later r1 (notify_all u at1) in
      let knew2 : pcs2 t ≡ knows waiting a =
        moved_other (λ w. woken (s1.pcs w)) u pushed t other ∙ ap woken (rest1 t other ∙ knew) in
      let fall : Move default s1.mem t (pcs2 t) (record s1.mem { head_mutex = none }) sleeping =
        subst (λ y. Move default s1.mem t y (record s1.mem { head_mutex = none }) sleeping)
          (sym knew2) (sleep (ap (λ y. y.queue.head == a) e1 ∙ empty)) in
      (
        record { mem = record s1.mem { head_mutex = none }; pcs = moved pcs2 t sleeping },
        later r2 (by t fall),
        moved_same pcs2 t sleeping,
        moved_other pcs2 t sleeping u (λ same. other (sym same))
            ∙ moved_same (λ w. woken (s1.pcs w)) u pushed,
        (λ same. nobody_part fresh_free (
            subst (λ y. own y ≡ part i)
              (sym (ap (λ y. y.queue.head) e1) ∙ same ∙ ap (λ y. y.queue.tail) e1)
              (head_part s.mem.queue.heap own i s.mem.queue.head xs s.mem.queue.tail v.linked))),
        λ w nt nu.
            moved_other pcs2 t sleeping w nt
            ∙ moved_other (λ z. woken (s1.pcs z)) u pushed w nu
            ∙ ap woken (rest1 w nu),
      )
