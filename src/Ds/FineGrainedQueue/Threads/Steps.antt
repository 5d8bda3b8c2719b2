-- ===== src/Ds/FineGrainedQueue/Threads/Steps.antt =====
-- What a step should do to the entries of the queue, and the steps that only take or give a mutex.
use libeva.Base.{
  ℕ, ◌≤◌, ◌≡◌, ◌≢◌, refl, sym, ◌∙◌, inl, inr, ◌⊎◌, Bool, true, false, Option, none, some, List, [],
  ◌∷◌, ◌++◌, arith, subst, suc, Bool-cases, ◌==◌, if◌then◌else◌,
}
use libeva.Ds.FineGrainedQueue.{Cell}
use libeva.Ds.FineGrainedQueue.Fifo.{first_of, rest_of}
use libeva.Ds.FineGrainedQueue.Threads.{
  Shared, try_once, waiting, Pc, moving, in_tail, knows, sleeping, took, took_node, reading,
  deleting, found_empty, faulted, moved, System, Move,
}
use libeva.Ds.FineGrainedQueue.Threads.Chain.{Owner, nobody, Linked}
use libeva.Ds.FineGrainedQueue.Threads.Invariant.{Local, Inv, Frame, Local-stable}

module _ {T : Type 0} where
  -- What the next step of a thread does to the entries.
  abbrev pub effect : Shared T → Pc T → List T → List T
  effect m (moving v n) xs = xs ++ (v ∷ [])
  effect m (knows w a) xs = if m.queue.head == a then xs else rest_of xs
  effect m p xs = xs

  abbrev pub is_none : Option T → Bool
  is_none none = true
  is_none (some x) = false

  -- Where it leads: `getTail` finds the head where there are no entries, and a pop that does not find
  -- it takes the first one.
  abbrev pub Answers : Shared T → List T → Pc T → Pc T → Type 0
  Answers m xs (in_tail w) p =
      (p ≡ knows w m.queue.tail) × ((m.queue.head == m.queue.tail) ≡ is_none (first_of xs))
  Answers m xs (knows try_once a) p =
      ((m.queue.head == a ≡ true) × (p ≡ found_empty))
      ⊎ ((x : T) × (m.queue.head == a ≡ false) × (first_of xs ≡ some x) × (p ≡ took m.queue.head x))
  Answers m xs (knows waiting a) p =
      ((m.queue.head == a ≡ true) × (p ≡ sleeping))
      ⊎ ((c : Cell T) × (m.queue.head == a ≡ false)
          × (first_of xs ≡ some c.entry)
          × (m.queue.heap m.queue.head ≡ some c)
          × (p ≡ took_node m.queue.head))
  Answers m xs (reading n) p = (c : Cell T) × (m.queue.heap n ≡ some c) × (p ≡ deleting n c.entry)
  Answers m xs q p = Unit

  -- The node that a thread has taken and not read.
  pub data Unread : Pc T → ℕ → Type 0 where
    not_let_go : {n : ℕ} → Unread (took_node n) n
    not_read : {n : ℕ} → Unread (reading n) n

  -- From `a` to `t` the nodes hold the entries.
  abbrev pub Entries : (ℕ → Option (Cell T)) → ℕ → List T → ℕ → Type 0
  Entries h a [] t = a ≡ t
  Entries h a (x ∷ xs) t =
      (b : ℕ) × (h a ≡ some (record { entry = x; next = some b })) × Entries h b xs t

  pub Linked-Entries :
      (h : ℕ → Option (Cell T)) (own : ℕ → Owner) (i a : ℕ) (xs : List T) (t : ℕ)
      → Linked h own i a xs t
      → Entries h a xs t
  Linked-Entries h own i a [] t (e, o) = e
  Linked-Entries h own i a (x ∷ xs) t (b, e, o, l) = (b, e, Linked-Entries h own (suc i) b xs t l)

-- A queue that each next step changes as it should.
abbrev pub AtOnce : {T : Type 0} → T → System T → Type 0
AtOnce {T} default s =
    (xs : List T) × Entries s.mem.queue.heap s.mem.queue.head xs s.mem.queue.tail
    × ((t : ℕ) (m : Shared T) (p : Pc T)
        → Move default s.mem t (s.pcs t) m p
        → Entries m.queue.heap m.queue.head (effect s.mem (s.pcs t) xs) m.queue.tail
          × (p ≢ faulted)
          × Answers s.mem xs (s.pcs t) p
          × ((u n : ℕ) → u ≢ t → Unread (s.pcs u) n → m.queue.heap n ≡ s.mem.queue.heap n))

pub taken : {r : Option ℕ} (u : ℕ) → r ≡ none → (t : ℕ) → t ≢ u → r ≡ some t → some u ≡ some t
taken u free t other h = let clash : ◌≡◌ {A = Option ℕ} none (some t) = sym free ∙ h in cc

pub given : {A : Type 0} {r : Option ℕ} (u : ℕ) → r ≡ some u → (t : ℕ) → t ≢ u → r ≡ some t → A
given u has t other h =
    let one : ◌≡◌ {A = Option ℕ} (some t) (some u) = sym h ∙ has in absurd (other (cc))

pub dropped :
    {r : Option ℕ} (u : ℕ)
    → r ≡ some u
    → (t : ℕ) → t ≢ u
    → r ≡ some t
    → ◌≡◌ {A = Option ℕ} none (some t)
dropped u has t other h = given u has t other h

module _ {T : Type 0} where
  abbrev pub Refined :
      Shared T → ℕ → Pc T → Shared T → Pc T → (ℕ → Pc T) → (ℕ → Owner) → List T → Type 0
  Refined m u q m' p pcs own xs =
      (own' : ℕ → Owner) × (i : ℕ) × Inv m' (moved pcs u p) own' i (effect m q xs)
      × (p ≢ faulted)
      × Answers m xs q p
      × Frame u m m' own own'

  -- What the threads know after a step.
  pub locals :
      {m m' : Shared T} {pcs : ℕ → Pc T} {own own' : ℕ → Owner} {i : ℕ} {xs : List T} (u : ℕ)
      (p : Pc T)
      → Inv m pcs own i xs
      → Frame u m m' own own'
      → Local m' own' u p
      → (t : ℕ) → Local m' own' t (moved pcs u p t)
  locals {pcs = pcs} u p v f mine t = elim (Bool-cases (t == u)) [
    | inl same ↦ ground (arith, same, mine)
    | inr other ↦ rw other (Local-stable f t (λ q. ground (arith, q, other)) (pcs t) (v.local t))
  ]

  module _ {m : Shared T} {pcs : ℕ → Pc T} {own : ℕ → Owner} {i : ℕ} {xs : List T} (u : ℕ)
      (v : Inv m pcs own i xs) where
    -- What is left to show of a step.
    pub stepped :
        {m' : Shared T} {own' : ℕ → Owner} {xs' : List T} (j : ℕ) (q p : Pc T)
        → Linked m'.queue.heap own' j m'.queue.head xs' m'.queue.tail
        → ((c : Cell T) × (m'.queue.heap m'.queue.tail ≡ some c))
        → ((a : ℕ) → m'.queue.fresh ≤ a → own' a ≡ nobody)
        → Frame u m m' own own'
        → Local m' own' u p
        → xs' ≡ effect m q xs
        → p ≢ faulted
        → Answers m xs q p
        → Refined m u q m' p pcs own xs
    stepped {m'} {own'} j q p linked last above f mine e alive ans = (
      own',
      j,
      subst (Inv m' (moved pcs u p) own' j) e
          (record { linked = linked; last = last; above = above; local = locals u p v f mine }),
      alive,
      ans,
      f,
    )

    -- A step that changes only the mutexes.
    pub mutex_step :
        (hm tm : Option ℕ) (q p : Pc T)
        → ((t : ℕ) → t ≢ u → m.head_mutex ≡ some t → hm ≡ some t)
        → ((t : ℕ) → t ≢ u → m.tail_mutex ≡ some t → tm ≡ some t)
        → Local (record m { head_mutex = hm; tail_mutex = tm }) own u p
        → xs ≡ effect m q xs
        → p ≢ faulted
        → Answers m xs q p
        → Refined m u q (record m { head_mutex = hm; tail_mutex = tm }) p pcs own xs
    mutex_step hm tm q p heads tails = stepped i q p v.linked v.last v.above (record {
      mine = λ t a other o. (o, refl);
      under_tail = λ t other h. (tails t other h, refl, refl);
      under_head = λ t other h. (heads t other h, refl, λ ne. ne);
    })
