-- ===== src/Reactor/TimeWheel/Lost.antt =====
-- libeva/TimeWheel/TimeWheel.cc: a repeating timer that is due again at once.
use libeva.Base.{
  ℕ, zero, suc, ◌+◌, ◌%◌, ◌<◌, ◌≡◌, ◌≢◌, refl, sym, ap, subst, ◌∙◌, inl, inr, true, Option, none,
  some, List, [], ◌∷◌, arith, ◌==◌, Bool-cases, get_elem?, set,
}
use mathlib.Core.Option.{some-injective}
use native.Mathlib.Nat.{mod-lt, mod-eq_of_lt}
use libeva.Reactor.Timer.{pos, Clock, Timer, put}
use libeva.Reactor.TimeWheel.{TimeWheel, add_timer, after_run, run_list, tick_round, is_index}
use libeva.Reactor.TimeWheel.Shape.{
  Outside, Linked, Holds, HoldsTimers, Linked-put, Linked-Outside, Holds-set,
}
use libeva.Reactor.TimeWheel.Changes.{added, pos-inj, add_timer-added}
use libeva.Reactor.TimeWheel.Rounds.{clear}

set-set_same : (xs : List (Option ℕ)) (i : ℕ) (v u : Option ℕ) → set (set xs i v) i u ≡ set xs i u
set-set_same [] i v u = refl
set-set_same (x ∷ xs) zero v u = refl
set-set_same (x ∷ xs) (suc i) v u = ap (◌∷◌ x) (set-set_same xs i v u)

module _ {C : Clock} where
  -- What is left of the timer: it is its own next one.
  abbrev pub looped : Timer C → ℕ → ℕ → Timer C
  looped t a s = record t { next = some a; index = pos s }

  module _ (w : TimeWheel C) (ts : ℕ → List ℕ) (a : ℕ) (t : Timer C) (v : HoldsTimers w ts)
      (some_slot : 0 < w.num_slot) (alone : ts ((w.start_idx + 1) % w.num_slot) ≡ a ∷ [])
      (at_a : w.heap a ≡ some t) (again : t.repeat ≡ true)
      (soon : C.ms_between (C.add_interval (C.now w.reads) t.interval) (C.add_ms w.start)
        ≡ pos 0) where
    abbrev s : ℕ
    s = (w.start_idx + 1) % w.num_slot

    below : s < w.num_slot
    below = mod-lt (w.start_idx + 1) some_slot

    -- The wheel of the round, and with the timer taken from its list.
    abbrev now : TimeWheel C
    now = record w { start_idx = s; start = C.add_ms w.start }

    abbrev taken : TimeWheel C
    taken = record now {
      heap = put w.heap a (some (record t { next = none }));
      reads = suc w.reads;
    }

    first :
        (get_elem? w.slot s ≡ some (some a)) × (t.index ≡ pos s) × (t.pre ≡ none) × (t.next ≡ none)
    first =
        let (p, at, l, d) = v.slots s below in
        let (q, u, at_u, index, pre, last) = subst (Linked w.heap s p) alone l in
        let same : u ≡ t = some-injective u t (sym at_u ∙ at_a) in
        (
          at ∙ ap some q,
          ap (λ x. x.index) (sym same) ∙ index,
          ap (λ x. x.pre) (sym same) ∙ pre,
          ap (λ x. x.next) (sym same) ∙ last,
        )

    abbrev after : TimeWheel C
    after = added taken a (record t { next = none }) s (some a)

    repeats :
        after_run now a t
        ≡ add_timer taken a
            (C.ms_between (C.add_interval (C.now w.reads) t.interval) (C.add_ms w.start))
    unfolding after_run
    repeats = rw again refl

    run_again : after_run now a t ≡ some after
    run_again =
        let same : (s + 0) % w.num_slot ≡ s =
          ap (λ n. n % w.num_slot) {x = s + 0} {y = s} (omega arith) ∙ mod-eq_of_lt below in
        let here : taken.heap a ≡ some (record t { next = none }) = ground arith in
        let q =
          add_timer-added taken a (record t { next = none }) 0 (some a) here refl some_slot
            (ap (get_elem? w.slot) same ∙ first.0) (record t { next = none }, here, first.2) in
        repeats
        ∙ ap (add_timer taken a) soon
        ∙ q
        ∙ ap (λ n. some (added taken a (record t { next = none }) n (some a))) same

    run_list_again : (fuel : ℕ) → run_list (suc (suc fuel)) now (some a) ≡ some (after, t.id ∷ [])
    unfolding run_list
    run_list_again fuel =
        let here : is_index t.index s ≡ true = ground (arith, first.1) in
        rw at_a (rw here (rw run_again (rw first.3 refl)))

    in_no_other : (i : ℕ) (p : Option ℕ) → i ≢ s → Linked w.heap i p (ts i) → Outside a (ts i)
    in_no_other i p ne l =
        Linked-Outside w.heap i p (ts i) a t l at_a (λ q. ne (pos-inj i s (sym q ∙ first.1)))

    after-Holds : Holds after.heap (set after.slot s none) w.num_slot (clear s ts)
    after-Holds =
        subst (λ l. Holds after.heap l w.num_slot (clear s ts))
          (sym (set-set_same w.slot s (some a) none))
          (Holds-set w.heap after.heap w.slot w.num_slot ts s none [] v below refl tt
            (λ i p lt ne l.
              let out = in_no_other i p ne l in
              Linked-put taken.heap i p (ts i) a _ out (Linked-put w.heap i p (ts i) a _ out l)))

    -- The only timer of the slot that becomes the current one, which repeats and is due again within
    -- the same millisecond, is lost: the round of tock runs it, and then it is in no list, has itself
    -- as its next timer, and is not freed.
    pub repeating-lost :
        (fuel : ℕ)
        → (w' : TimeWheel C) × (tick_round (suc (suc fuel)) w ≡ some (w', t.id ∷ []))
          × HoldsTimers w' (clear s ts)
          × ((i : ℕ) → i < w.num_slot → Outside a (clear s ts i))
          × (w'.heap a ≡ some (looped t a s))
    unfolding tick_round
    repeating-lost fuel = (
      record after { slot = set after.slot s none },
      rw first.0 (rw (run_list_again fuel) refl),
      after-Holds,
      λ i lt. elim (Bool-cases (i == s)) [
        | inl e ↦ rw e tt
        | inr e ↦
            let (p, at, l, d) = v.slots i lt in rw e (in_no_other i p (λ q. ground (arith, q, e)) l)
      ],
      ground arith,
    )
