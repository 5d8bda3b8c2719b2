-- ===== src/Thread/MyThreadPool/Rounds.antt =====
-- libeva/Thread/MyThreadPool.cc: which task a round takes.
use libeva.Base.{
  get_elem?-length, get_elem?-set_same, set-set, Bool-cases, ltb, ◌==◌, ==_iff, ltb→lt, ℕ, zero,
  suc, ◌+◌, ◌-◌, ◌%◌, ◌<◌, ◌≤◌, ◌≡◌, refl, sym, ap, subst, ◌∙◌, Option, none, some, List, [], ◌∷◌,
  ◌++◌, length, get_elem?, set, arith, ◌⊎◌, inl, inr,
}
use native.Mathlib.Nat.{mod-lt, mod-eq_of_lt, add-mod_right}
use libeva.Ds.StealingQueue.{push_back, pop-push, try_pop_back, try_steal_front, pop-cases}
use libeva.Thread.MyThreadPool.{Fifo, MyThreadPool, steal_from, steal_work, round, run}

module _ {T : Type 0} where
  -- The queue `i` places after that of the thread, in cyclic order, is empty.
  abbrev pub EmptyAfter : ℕ → List (List T) → ℕ → Type 0
  EmptyAfter idx queues i = get_elem? queues ((idx + i + 1) % length queues) ≡ some []

  -- What `stealWork` gives: the front of the first queue in cyclic order that has one, or nothing
  -- where none has.
  pub data Stolen (idx : ℕ) (queues : List (List T)) : List (List T) × Option T → Type 0 where
    first :
        (i : ℕ) (x : T) (xs : List T)
        → i < length queues
        → ((j : ℕ) → j < i → EmptyAfter idx queues j)
        → get_elem? queues ((idx + i + 1) % length queues) ≡ some (x ∷ xs)
        → Stolen idx queues (set queues ((idx + i + 1) % length queues) xs, some x)
    nothing :
        ((j : ℕ) → j < length queues → get_elem? queues j ≡ some [])
        → Stolen idx queues (queues, none)

  queue-cases :
      (queues : List (List T)) (i : ℕ)
      → i < length queues
      → (get_elem? queues i ≡ some [])
        ⊎ ((x : T) × (xs : List T) × (get_elem? queues i ≡ some (x ∷ xs)))
  queue-cases [] i lt = absurd (omega arith)
  queue-cases ([] ∷ qs) zero lt = inl refl
  queue-cases ((x ∷ xs) ∷ qs) zero lt = inr (x, xs, refl)
  queue-cases (q ∷ qs) (suc i) lt = queue-cases qs i (omega arith)

  -- In cyclic order every queue comes up.
  all_empty :
      (idx : ℕ) (queues : List (List T))
      → idx < length queues
      → ((i : ℕ) → i < length queues → EmptyAfter idx queues i)
      → (j : ℕ) → j < length queues
      → get_elem? queues j ≡ some []
  all_empty idx queues lt h j below = elim (Bool-cases (ltb idx j)) [
    | inl after ↦
        let up = ltb→lt idx j after in
        let i : idx + (j - idx - 1) + 1 ≡ j = omega arith in
        subst (λ k. get_elem? queues k ≡ some [])
          (ap (λ k. k % length queues) i ∙ mod-eq_of_lt below) (h (j - idx - 1) (omega arith))
    | inr before ↦
        let down : j ≤ idx = ground arith in
        let i : idx + (length queues - 1 - idx + j) + 1 ≡ j + length queues = omega arith in
        subst (λ k. get_elem? queues k ≡ some [])
          (ap (λ k. k % length queues) i ∙ add-mod_right j (length queues) ∙ mod-eq_of_lt below)
          (h (length queues - 1 - idx + j) (omega arith))
  ]

  up_to :
      (i idx : ℕ) (queues : List (List T))
      → ((j : ℕ) → j < i → EmptyAfter idx queues j)
      → EmptyAfter idx queues i
      → (j : ℕ) → j < suc i
      → EmptyAfter idx queues j
  up_to i idx queues h q j below = elim (Bool-cases (j == i)) [
    | inl same ↦ subst (EmptyAfter idx queues) (sym ((==_iff j i).0 same)) q
    | inr other ↦ h j (ground arith)
  ]

  steal_from-Stolen :
      (n i idx : ℕ) (queues : List (List T))
      → i + n ≡ length queues
      → idx < length queues
      → ((j : ℕ) → j < i → EmptyAfter idx queues j)
      → (r : List (List T) × Option T) × (steal_from n i idx queues ≡ some r) × Stolen idx queues r
  unfolding steal_from try_steal_front
  steal_from-Stolen zero i idx queues e lt h =
      (_, refl, nothing (all_empty idx queues lt (λ j below. h j (omega arith))))
  steal_from-Stolen (suc n) i idx queues e lt h =
      elim (queue-cases queues ((idx + i + 1) % length queues)
        (mod-lt (idx + i + 1) (omega arith))) [
          | inl q ↦
              let (r, s, o) =
                steal_from-Stolen n (suc i) idx queues (omega arith) lt
                  (λ j below. up_to i idx queues h q j below) in
              (r, rw q s, o)
          | inr (x, xs, q) ↦ (_, rw q refl, first i x xs (omega arith) h q)
        ]

  steal_work-Stolen :
      (idx : ℕ) (queues : List (List T))
      → idx < length queues
      → (r : List (List T) × Option T) × (steal_work idx queues ≡ some r) × Stolen idx queues r
  unfolding steal_work
  steal_work-Stolen idx queues lt =
      steal_from-Stolen (length queues) 0 idx queues (omega arith) lt
        (λ j below. absurd (omega arith))

module _ {T : Type 0} (F : Fifo T) where
  -- The three places of a task, in the order in which they are tried.
  pub data Taken (idx : ℕ) (p : MyThreadPool F.Queue T) (shared : List T)
      : MyThreadPool F.Queue T × Option T → Type 0 where
    from_own :
        (ys : List T) (task : T)
        → get_elem? p.queues idx ≡ some (ys ++ (task ∷ []))
        → Taken idx p shared (record p { queues = set p.queues idx ys }, some task)
    from_shared :
        (s' : F.Queue) (task : T) (rest : List T)
        → get_elem? p.queues idx ≡ some []
        → shared ≡ task ∷ rest
        → F.Contains s' rest
        → Taken idx p shared (record p { shared_queue = s' }, some task)
    from_others :
        (s' : F.Queue) (r : List (List T) × Option T)
        → get_elem? p.queues idx ≡ some []
        → shared ≡ []
        → F.Contains s' []
        → Stolen idx p.queues r
        → Taken idx p shared (record p { shared_queue = s'; queues = r.0 }, r.1)

  not_own :
      (idx : ℕ) (p : MyThreadPool F.Queue T) (shared : List T)
      → idx < length p.queues
      → get_elem? p.queues idx ≡ some []
      → F.Contains p.shared_queue shared
      → (r : MyThreadPool F.Queue T × Option T) × (round F idx p ≡ some r) × Taken idx p shared r
  unfolding round try_pop_back
  not_own idx p [] lt own c =
      let (r, s, o) = steal_work-Stolen idx p.queues lt in
      let (s', e, c') = F.pop_empty_lem p.shared_queue c in
      (_, rw own (rw e (rw s refl)), from_others s' r own refl c' o)
  not_own idx p (task ∷ rest) lt own c =
      let (s', e, c') = F.pop_lem p.shared_queue rest task c in
      (_, rw own (rw e refl), from_shared s' task rest own refl c')

  -- A round of a thread of the pool returns. The thread takes the newest task of its own queue;
  -- where this is empty, the oldest of the shared queue; where this is empty too, the oldest of the
  -- first queue after its own in cyclic order that has one; and none where all are empty. The other
  -- tasks stay where they are.
  pub round-Taken :
      (idx : ℕ) (p : MyThreadPool F.Queue T) (shared : List T)
      → idx < length p.queues
      → F.Contains p.shared_queue shared
      → (r : MyThreadPool F.Queue T × Option T) × (round F idx p ≡ some r) × Taken idx p shared r
  unfolding round
  round-Taken idx p shared lt c =
      let (q, e) = get_elem?-length p.queues idx lt in
      elim (pop-cases q) [
        | inl (empty, pop) ↦ not_own idx p shared lt (e ∙ ap some empty) c
        | inr (ys, y, last, pop) ↦ (_, ground (arith, e, pop), from_own ys y (e ∙ ap some last))
      ]

module _ {T : Type 0} (F : Fifo T) where
  -- A task that a thread of the pool gives to run is what its next round takes, and the pool is
  -- then as it was before.
  pub round-run :
      (idx : ℕ) (p : MyThreadPool F.Queue T) (task : T)
      → idx < length p.queues
      → (p' : MyThreadPool F.Queue T) × (run F p (some idx) task ≡ some p')
        × (round F idx p' ≡ some (p, some task))
  unfolding round run
  round-run idx p task lt =
      let (q, e) = get_elem?-length p.queues idx lt in
      (
        record p { queues = set p.queues idx (push_back q task) },
        ground (arith, e),
        ground (
          arith,
          get_elem?-set_same p.queues idx (push_back q task) lt,
          pop-push q task,
          set-set p.queues idx (push_back q task) q e,
        ),
      )
