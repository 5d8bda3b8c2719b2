-- ===== src/Thread/MyThreadPool/Threads/Conserved.antt =====
-- No task is lost and none is run twice.
use libeva.Base.{
  ℕ, zero, suc, ◌+◌, ◌%◌, ◌≡◌, refl, sym, ap, ◌∙◌, inl, inr, Bool, true, false, Option, some, List,
  [], ◌∷◌, ◌++◌, arith, length, get_elem?, set, replicate, one_some, some_not_none,
}
use libeva.Ds.StealingQueue.{push_back, try_pop_back, try_steal_front, pop-cases}
use libeva.Thread.MyThreadPool.Threads.{
  Pc, at_loop, own_queue, common_queue, stealing, runs, ended, System, moved, took_from, Step,
  goes_on, ends, pops, has_none, takes, finds_none, steals, looks_on, yields, has_run, gives_own,
  gives, stops, Reach, here, later,
}

abbrev pub total {ℓ} : {A : Type ℓ} → (A → ℕ) → List A → ℕ
total f [] = 0
total f (x ∷ xs) = f x + total f xs

module _ {A : Type 0} (f : A → ℕ) where
  total-append : (xs ys : List A) → total f (xs ++ ys) ≡ total f xs + total f ys
  total-append [] ys = omega arith
  total-append (x ∷ xs) ys = omega (arith, total-append xs ys)

  total-set :
      (xs : List A) (i : ℕ) (x y : A)
      → get_elem? xs i ≡ some x
      → total f (set xs i y) + f x ≡ total f xs + f y
  total-set [] i x y e = some_not_none e refl
  total-set (z ∷ xs) zero x y e = let same : z ≡ x = one_some refl e in omega (arith, ap f same)
  total-set (z ∷ xs) (suc i) x y e = omega (arith, total-set xs i x y e)

  total-replicate : (n : ℕ) (x : A) → f x ≡ 0 → total f (replicate n x) ≡ 0
  total-replicate zero x e = refl
  total-replicate (suc n) x e = omega (arith, e, total-replicate n x e)

module _ {T : Type 0} (test : T → Bool) where
  abbrev pub one : T → ℕ
  one x = elim (test x) [ true ↦ 1 | false ↦ 0 ]

  -- How many tasks of a queue pass a test.
  abbrev pub count : List T → ℕ
  count = total one

  abbrev pub at_hand : Pc T → ℕ
  at_hand (runs task) = one task
  at_hand p = 0

  -- The tasks that pass a test were run, are running, or wait in a queue.
  abbrev pub Accounted : System T → Type 0
  Accounted s =
      count s.given
      ≡ count s.ran + (total at_hand s.pcs + (count s.shared_queue + total count s.queues))

  -- A queue gives the task that it loses.
  count-pop :
      (q rest : List T) (task : T)
      → try_pop_back q ≡ (rest, some task)
      → count q ≡ count rest + one task
  count-pop q rest task e = elim (pop-cases q) [
    | inl (none_there, p) ↦ some_not_none (ap (λ r. r.1) (sym p ∙ e)) refl
    | inr (ys, y, split, p) ↦
        let it : ◌≡◌ {A = List T × Option T} (ys, some y) (rest, some task) = sym p ∙ e in
        let first : ys ≡ rest = ap (λ r. r.0) it in
        let last : y ≡ task = one_some refl (ap (λ r. r.1) it) in
        ap count split ∙ total-append one ys (y ∷ []) ∙ omega (arith, ap count first, ap one last)
  ]

  count-steal :
      (q rest : List T) (task : T)
      → try_steal_front q ≡ (rest, some task)
      → count q ≡ count rest + one task
  unfolding try_steal_front
  count-steal [] rest task e = some_not_none (ap (λ r. r.1) e) refl
  count-steal (x ∷ xs) rest task e =
      let first : xs ≡ rest = ap (λ r. r.0) e in
      let last : x ≡ task = one_some refl (ap (λ r. r.1) e) in
      omega (arith, ap count first, ap one last)

  -- A thread that holds no task moves to where it holds none.
  quiet :
      (s : System T) (idx : ℕ) (q p : Pc T)
      → get_elem? s.pcs idx ≡ some q
      → at_hand q ≡ 0
      → at_hand p ≡ 0
      → Accounted s
      → Accounted (moved s idx p)
  quiet s idx q p e hq hp a = omega (arith, total-set at_hand s.pcs idx q p e, hq, hp, a)

  -- A thread takes a task from one of the queues.
  taken :
      (s : System T) (idx index : ℕ) (q : Pc T) (queue rest : List T) (task : T)
      → get_elem? s.pcs idx ≡ some q
      → at_hand q ≡ 0
      → get_elem? s.queues index ≡ some queue
      → count queue ≡ count rest + one task
      → Accounted s
      → Accounted (took_from s idx index rest task)
  taken s idx index q queue rest task e hq eq less a = omega (
    arith,
    total-set at_hand s.pcs idx q (runs task) e,
    hq,
    total-set count s.queues index queue rest eq,
    less,
    a,
  )

  Step-Accounted : {s s' : System T} → Step s s' → Accounted s → Accounted s'
  unfolding push_back
  Step-Accounted {s} (goes_on idx e on) a = quiet s idx at_loop own_queue e refl refl a
  Step-Accounted {s} (ends idx e off) a = quiet s idx at_loop ended e refl refl a
  Step-Accounted {s} (pops idx {q} {rest} {task} e eq p) a =
      taken s idx idx own_queue q rest task e refl eq (count-pop q rest task p) a
  Step-Accounted {s} (has_none idx e eq p) a = quiet s idx own_queue common_queue e refl refl a
  Step-Accounted {s} (takes idx {task} {rest} e sh) a =
      omega (arith, total-set at_hand s.pcs idx common_queue (runs task) e, ap count sh, a)
  Step-Accounted {s} (finds_none idx e sh) a = quiet s idx common_queue (stealing 0) e refl refl a
  Step-Accounted {s} (steals idx {i} {q} {rest} {task} e lt eq p) a =
      taken s idx ((idx + i + 1) % length s.queues) (stealing i) q rest task e refl eq
        (count-steal q rest task p) a
  Step-Accounted {s} (looks_on idx {i} e lt eq p) a =
      quiet s idx (stealing i) (stealing (suc i)) e refl refl a
  Step-Accounted {s} (yields idx {i} e le) a = quiet s idx (stealing i) at_loop e refl refl a
  Step-Accounted {s} (has_run idx {task} e) a =
      omega (arith, total-set at_hand s.pcs idx (runs task) at_loop e, a)
  Step-Accounted {s} (gives_own idx {q} new_task e eq) a = omega (
    arith,
    total-set count s.queues idx q (q ++ (new_task ∷ [])) eq,
    total-append one q (new_task ∷ []),
    a,
  )
  Step-Accounted {s} (gives new_task) a =
      omega (arith, total-append one s.shared_queue (new_task ∷ []), a)
  Step-Accounted stops a = a

-- In every state that is reached after start, by the rounds of the threads of the pool, by tasks and
-- other threads that call run, and by stop, and for every test on tasks, the number of tasks that
-- were given and pass it is the number of those that have been run, that a thread is running and
-- that wait in a queue together: no task is lost and none runs twice.
pub Reach-Accounted :
    {T : Type 0} (num_threads : ℕ) {s : System T} (test : T → Bool)
    → Reach num_threads s
    → Accounted test s
Reach-Accounted num_threads test here = omega (
  arith,
  total-replicate (at_hand test) num_threads at_loop refl,
  total-replicate (count test) num_threads [] refl,
)
Reach-Accounted num_threads test (later r st) =
    Step-Accounted test st (Reach-Accounted num_threads test r)
