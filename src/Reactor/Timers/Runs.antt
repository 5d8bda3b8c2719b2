-- ===== src/Reactor/Timers/Runs.antt =====
-- libeva/Reactor/Reactor.cc: a timer runs when it is due.
use libeva.Base.{
  ℕ, suc, ◌+◌, ◌%◌, ◌<◌, ◌≡◌, refl, sym, ap, ap₂, ◌∙◌, inl, inr, false, Option, none, some, List,
  [], ◌∷◌, ◌++◌, arith, ◌==◌, if◌then◌else◌, Bool-cases, Bool,
}
use native.Mathlib.Nat.{mod-lt}
use libeva.Reactor.Timer.{pos, Clock, Timer, put, new_timer}
use libeva.Reactor.TimeWheel.{
  TimeWheel, create_timer, add_timer_in_reactor, tick_rounds, cancel_in_reactor,
}
use libeva.Reactor.TimeWheel
use libeva.Reactor.TimeWheel.Shape.{Outside, Linked, HoldsTimers, Linked-put}
use libeva.Reactor.TimeWheel.Changes.{added, add_timer-at, add_timer_in_reactor-add_timer}
use libeva.Reactor.TimeWheel.Ticks.{OneShot, ids, id_of, Linked-ids}
use libeva.Reactor.TimeWheel.Rounds.{Schedule, plus, due, due-plus, tick_rounds-due}
use libeva.Reactor.Timers.{add_timer, run_at, run_after}

module _ {C : Clock} where
  -- An address with no timer is in no list.
  Linked-fresh :
      (h : ℕ → Option (Timer C)) (i : ℕ) (p : Option ℕ) (ps : List ℕ) (a : ℕ)
      → Linked h i p ps
      → h a ≡ none
      → Outside a ps
  Linked-fresh h i p [] a l e = tt
  Linked-fresh h i p (b ∷ bs) a (q, t, at, index, pre, l) e =
      ((λ same. ground (arith, e, at, same)), Linked-fresh h i t.next bs a l e)

  abbrev repeat_of : Option (Timer C) → Bool
  repeat_of none = false
  repeat_of (some t) = t.repeat

  -- The wheel with a new timer in no slot.
  abbrev created : TimeWheel C → C.Time → C.Interval → TimeWheel C
  created w when interval = record w {
    heap = put w.heap w.fresh (some (new_timer w.num_created when interval));
    fresh = suc w.fresh;
    num_created = suc w.num_created;
  }

  module _ (fuel : ℕ) (w : TimeWheel C) (ts names : ℕ → List ℕ) (v : Schedule fuel w ts names)
      (unused : w.heap w.fresh ≡ none) (when : C.Time) (interval : C.Interval) where
    outside : (i : ℕ) → i < w.num_slot → Outside w.fresh (ts i)
    outside i lt =
        let (p, at, l, d) = v.holds.slots i lt in Linked-fresh w.heap i p (ts i) w.fresh l unused

    created-Holds : HoldsTimers (created w when interval) ts
    created-Holds = record {
      size = v.holds.size;
      slots = λ i lt.
          let (p, at, l, d) = v.holds.slots i lt in
          (p, at, Linked-put w.heap i p (ts i) w.fresh _ (outside i lt) l, d);
    }

    module _ (k : ℕ) (near : suc k < w.num_slot) (once : C.is_positive interval ≡ false) where
      abbrev s : ℕ
      s = (w.start_idx + suc k) % w.num_slot

      abbrev with_timer : Option ℕ → TimeWheel C
      with_timer p =
          added (created w when interval) w.fresh (new_timer w.num_created when interval) s p

      other_timers :
          (p : Option ℕ) (b : ℕ) (t : Timer C)
          → w.heap b ≡ some t
          → (with_timer p).heap b ≡ w.heap b
      other_timers p b t e = elim (Bool-cases (b == w.fresh)) [
        | inl same ↦ ground (arith, e, same, unused)
        | inr other ↦ ground (arith, other)
      ]

      timer_at_fresh :
          (p : Option ℕ)
          → (with_timer p).heap w.fresh
            ≡ some (record (new_timer w.num_created when interval) { next = p; index = pos s })
      timer_at_fresh p = ground arith

      other_lists :
          (p : Option ℕ) (i : ℕ)
          → i < w.num_slot
          → (ids (with_timer p).heap (ts i) ≡ ids w.heap (ts i))
            × OneShot (with_timer p).heap (ts i)
      other_lists p i lt =
          let (q, at, l, d) = v.holds.slots i lt in
          Linked-ids w.heap (with_timer p).heap i q (ts i) (λ b t e index. other_timers p b t e) l
            (v.once i lt)

      below : s < w.num_slot
      below = mod-lt (w.start_idx + suc k) v.some_slot

      with_timer-Schedule :
          (p : Option ℕ)
          → HoldsTimers (with_timer p) (λ i. if i == s then w.fresh ∷ ts s else ts i)
          → Schedule
              (suc fuel)
              (with_timer p)
              (λ i. if i == s then w.fresh ∷ ts s else ts i)
              (plus s w.num_created names)
      with_timer-Schedule p h = record {
        holds = h;
        some_slot = v.some_slot;
        once = λ i lt. elim (Bool-cases (i == s)) [
          | inl e ↦ rw e (
            (λ t at. sym (ap repeat_of (sym (timer_at_fresh p) ∙ at)) ∙ once),
            (other_lists p s below).1,
          )
          | inr e ↦ rw e (other_lists p i lt).1
        ];
        enough = λ i lt. elim (Bool-cases (i == s)) [
          | inl e ↦ rw e (omega (arith, v.enough s below))
          | inr e ↦ rw e (omega (arith, v.enough i lt))
        ];
        named = λ i lt. elim (Bool-cases (i == s)) [
          | inl e ↦
              rw e (
                ap₂ ◌∷◌ (ap id_of (timer_at_fresh p)) ((other_lists p s below).0 ∙ v.named s below))
          | inr e ↦ rw e ((other_lists p i lt).0 ∙ v.named i lt)
        ];
      }

      add_timer-created :
          C.is_before when w.start ≡ false
          → C.ms_between when w.start ≡ pos (suc k)
          → (p : Option ℕ) × (add_timer w when interval ≡ some (with_timer p, w.fresh))
            × Schedule
                (suc fuel)
                (with_timer p)
                (λ i. if i == s then w.fresh ∷ ts s else ts i)
                (plus s w.num_created names)
      unfolding add_timer create_timer
      add_timer-created early diff =
          let w1 = created w when interval in
          let at : w1.heap w.fresh ≡ some (new_timer w.num_created when interval) = ground arith in
          let (p, q, h) =
            add_timer-at w1 ts w.fresh (new_timer w.num_created when interval) (suc k) created-Holds
              at refl refl outside near in
          let added_now : add_timer_in_reactor w1 w.fresh ≡ some (with_timer p) =
            add_timer_in_reactor-add_timer w1 w.fresh (new_timer w.num_created when interval) at
            ∙ ap (TimeWheel.add_timer w1 w.fresh) diff
            ∙ q in
          (p, rw early (rw added_now refl), with_timer-Schedule p h)

  -- runAfter of a delay that makes a difference to start_ of at least a millisecond and less than a
  -- turn of the wheel returns, on a wheel whose timers do not repeat, and so do as many rounds of
  -- tock as the difference has milliseconds: the rounds before the last run what they would have
  -- run without the new timer, and the last runs the new timer, before the others of its slot.
  pub run_after-due :
      (fuel : ℕ) (w : TimeWheel C) (ts names : ℕ → List ℕ) (delay : C.Interval) (k : ℕ)
      → Schedule fuel w ts names
      → w.heap w.fresh ≡ none
      → C.is_positive C.zero_interval ≡ false
      → C.is_before (C.add_interval (C.now w.reads) delay) w.start ≡ false
      → C.ms_between (C.add_interval (C.now w.reads) delay) w.start ≡ pos (suc k)
      → suc k < w.num_slot
      → (w' : TimeWheel C) × (w'' : TimeWheel C) × (run_after w delay ≡ some (w', w.fresh))
        × (tick_rounds (suc fuel) (suc k) w'
            ≡ some (
              w'',
              due w.num_slot names w.start_idx k
                  ++ (w.num_created ∷ names ((w.start_idx + suc k) % w.num_slot)),
            ))
  unfolding run_after run_at
  run_after-due fuel w ts names delay k v unused once early diff near =
      let w0 = record w { reads = suc w.reads } in
      let v0 : Schedule fuel w0 ts names = record {
        holds = v.holds;
        some_slot = v.some_slot;
        once = v.once;
        enough = v.enough;
        named = v.named;
      } in
      let (p, q, v') =
        add_timer-created fuel w0 ts names v0 unused (C.add_interval (C.now w.reads) delay)
          C.zero_interval k near once early diff in
      let (w'', run) = tick_rounds-due (suc k) (suc fuel) _ _ _ v' in
      (
        _,
        w'',
        q,
        run ∙ ap (λ l. some (w'', l)) (due-plus k w.num_slot w.start_idx w.num_created names near),
      )
