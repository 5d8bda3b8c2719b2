-- ===== src/Reactor/TimeWheel/Ticks.antt =====
-- libeva/TimeWheel/TimeWheel.cc: what a round of `tock` runs.
use libeva.Base.{
  ℕ, zero, suc, ◌+◌, ◌%◌, ◌<◌, ◌≤◌, ◌≡◌, ◌≢◌, refl, sym, ap, ap₂, ◌∙◌, true, false, Option, none,
  some, List, [], ◌∷◌, arith, ◌==◌, if◌then◌else◌, length, get_elem?, set, set_same,
}
use native.Mathlib.Nat.{mod-lt}
use libeva.Reactor.Timer.{pos, Clock, Timer, put}
use libeva.Reactor.TimeWheel.{TimeWheel, after_run, run_list, tick_round, is_index}
use libeva.Reactor.TimeWheel.Shape.{
  Outside, Distinct, Linked, Holds, HoldsTimers, Linked-put, Linked-Outside, Holds-set,
}
use libeva.Reactor.TimeWheel.Changes.{pos-inj}

module _ {C : Clock} where
  abbrev pub id_of : Option (Timer C) → ℕ
  id_of none = 0
  id_of (some t) = t.id

  abbrev pub ids : (ℕ → Option (Timer C)) → List ℕ → List ℕ
  ids h [] = []
  ids h (a ∷ rest) = id_of (h a) ∷ ids h rest

  -- A list stays where its timers do.
  pub Linked-agree :
      (h h' : ℕ → Option (Timer C)) (i : ℕ) (p : Option ℕ) (ps : List ℕ)
      → ((b : ℕ) (t : Timer C) → h b ≡ some t → t.index ≡ pos i → h' b ≡ h b)
      → Linked h i p ps
      → Linked h' i p ps
  Linked-agree h h' i p [] agree l = l
  Linked-agree h h' i p (b ∷ bs) agree (q, t, at, index, pre, l) =
      (q, t, agree b t at index ∙ at, index, pre, Linked-agree h h' i t.next bs agree l)

  -- No timer of the list repeats.
  abbrev pub OneShot : (ℕ → Option (Timer C)) → List ℕ → Type 0
  OneShot h [] = Unit
  OneShot h (a ∷ rest) = ((t : Timer C) → h a ≡ some t → t.repeat ≡ false) × OneShot h rest

  pub put_other :
      (h : ℕ → Option (Timer C)) (a b : ℕ) (v : Option (Timer C)) → b ≢ a → put h a v b ≡ h b
  put_other h a b v ne = ground (arith, ne)

  ids-put :
      (h : ℕ → Option (Timer C)) (a : ℕ) (v : Option (Timer C)) (ps : List ℕ)
      → Outside a ps
      → ids (put h a v) ps ≡ ids h ps
  ids-put h a v [] out = refl
  ids-put h a v (b ∷ bs) (ne, out) =
      rw (put_other h a b v ne) (ap (◌∷◌ (id_of (h b))) (ids-put h a v bs out))

  OneShot-put :
      (h : ℕ → Option (Timer C)) (a : ℕ) (v : Option (Timer C)) (ps : List ℕ)
      → Outside a ps
      → OneShot h ps
      → OneShot (put h a v) ps
  OneShot-put h a v [] out o = tt
  OneShot-put h a v (b ∷ bs) (ne, out) (o, os) =
      ((λ t e. o t (sym (put_other h a b v ne) ∙ e)), OneShot-put h a v bs out os)

  pub Linked-ids :
      (h h' : ℕ → Option (Timer C)) (i : ℕ) (p : Option ℕ) (ps : List ℕ)
      → ((b : ℕ) (t : Timer C) → h b ≡ some t → t.index ≡ pos i → h' b ≡ h b)
      → Linked h i p ps
      → OneShot h ps
      → (ids h' ps ≡ ids h ps) × OneShot h' ps
  Linked-ids h h' i p [] agree l o = (refl, tt)
  Linked-ids h h' i p (b ∷ bs) agree (q, t, at, index, pre, l) (o, os) =
      let same = agree b t at index in
      let (e, os') = Linked-ids h h' i t.next bs agree l os in
      (ap₂ ◌∷◌ (ap id_of same) e, ((λ u eu. o u (sym same ∙ eu)), os'))

  after_run-frees :
      (w : TimeWheel C) (a : ℕ) (t : Timer C)
      → t.repeat ≡ false
      → after_run w a t
        ≡ some (record w { heap = put (put w.heap a (some (record t { next = none }))) a none })
  unfolding after_run
  after_run-frees w a t one = rw one refl

  -- The timer at the front runs and is freed.
  run_first :
      (w : TimeWheel C) (fuel a : ℕ) (t : Timer C) (r : TimeWheel C × List ℕ)
      → w.heap a ≡ some t
      → t.index ≡ pos w.start_idx
      → t.repeat ≡ false
      → run_list fuel
          (record w { heap = put (put w.heap a (some (record t { next = none }))) a none })
          t.next
        ≡ some r
      → run_list (suc fuel) w (some a) ≡ some (r.0, t.id ∷ r.1)
  unfolding run_list
  run_first w fuel a t r e index one rest =
      let here : is_index t.index w.start_idx ≡ true = ground (arith, index) in
      rw e (rw here (rw (after_run-frees w a t one) (rw rest refl)))

  run_list-frees :
      (ps : List ℕ) (fuel : ℕ) (w : TimeWheel C) (p : Option ℕ)
      → length ps ≤ fuel
      → Linked w.heap w.start_idx p ps
      → Distinct ps
      → OneShot w.heap ps
      → (h' : ℕ → Option (Timer C)) × (run_list fuel w p
          ≡ some (record w { heap = h' }, ids w.heap ps))
        × ((b : ℕ) → Outside b ps → h' b ≡ w.heap b)
  unfolding run_list
  run_list-frees [] fuel w p le l d o = (w.heap, rw l refl, λ b out. refl)
  run_list-frees (a ∷ ps) zero w p le l d o = absurd (omega arith)
  run_list-frees (a ∷ ps) (suc fuel) w p le (q, t, at, index, pre, l) (out, d) (o, os) =
      let h1 = put w.heap a (some (record t { next = none })) in
      let h2 = put h1 a none in
      let (h', run, agree) =
        run_list-frees ps fuel (record w { heap = h2 }) t.next (omega arith)
          (Linked-put h1 w.start_idx t.next ps a none out
            (Linked-put w.heap w.start_idx t.next ps a _ out l))
          d (OneShot-put h1 a none ps out (OneShot-put w.heap a _ ps out os)) in
      let same_ids : ids h2 ps ≡ ids w.heap ps =
        ids-put h1 a none ps out ∙ ids-put w.heap a _ ps out in
      (
        h',
        ap (run_list (suc fuel) w) q
            ∙ run_first w fuel a t _ at index (o t at) run
            ∙ ap (λ n. some (record w { heap = h' }, n)) {y = ids w.heap (a ∷ ps)}
                (ap₂ ◌∷◌ (ap id_of (sym at)) same_ids),
        λ b outside.
            agree b outside.1
            ∙ put_other h1 a b none (λ e. outside.0 (sym e))
            ∙ put_other w.heap a b _ (λ e. outside.0 (sym e)),
      )

  abbrev cleared : ℕ → Option (TimeWheel C × List ℕ) → Option (TimeWheel C × List ℕ)
  cleared i none = none
  cleared i (some r) = some (record r.0 { slot = set r.0.slot i none }, r.1)

  tick_on :
      (fuel : ℕ) (w : TimeWheel C) (p : Option ℕ) (h' : ℕ → Option (Timer C)) (out : List ℕ)
      → get_elem? w.slot ((w.start_idx + 1) % w.num_slot) ≡ some p
      → run_list fuel
          (record w { start_idx = (w.start_idx + 1) % w.num_slot; start = C.add_ms w.start })
          p
        ≡ some (
          record w {
            heap = h';
            start_idx = (w.start_idx + 1) % w.num_slot;
            start = C.add_ms w.start;
          },
          out,
        )
      → tick_round fuel w
        ≡ some (
          record w {
            heap = h';
            start_idx = (w.start_idx + 1) % w.num_slot;
            start = C.add_ms w.start;
            slot = set w.slot ((w.start_idx + 1) % w.num_slot) none;
          },
          out,
        )
  unfolding tick_round run_list
  tick_on fuel w none h' out at run =
      let i = (w.start_idx + 1) % w.num_slot in
      rw at (
        ap (λ l. some (record w { start_idx = i; start = C.add_ms w.start; slot = l }, []))
          (sym (set_same w.slot i none at))
        ∙ ap (cleared i) run)
  tick_on fuel w (some b) h' out at run = rw at (rw run refl)

  -- A round of the loop of `tock`, with the heap that it leaves.
  pub tick_round-heap :
      (fuel : ℕ) (w : TimeWheel C) (ts : ℕ → List ℕ)
      → HoldsTimers w ts
      → 0 < w.num_slot
      → OneShot w.heap (ts ((w.start_idx + 1) % w.num_slot))
      → length (ts ((w.start_idx + 1) % w.num_slot)) ≤ fuel
      → (h' : ℕ → Option (Timer C)) × (tick_round fuel w
          ≡ some (
            record w {
              heap = h';
              start_idx = (w.start_idx + 1) % w.num_slot;
              start = C.add_ms w.start;
              slot = set w.slot ((w.start_idx + 1) % w.num_slot) none;
            },
            ids w.heap (ts ((w.start_idx + 1) % w.num_slot)),
          ))
        × ((b i : ℕ) (t : Timer C)
            → w.heap b ≡ some t
            → t.index ≡ pos i
            → i ≢ (w.start_idx + 1) % w.num_slot
            → h' b ≡ w.heap b)
  tick_round-heap fuel w ts v some_slot one le =
      let s = (w.start_idx + 1) % w.num_slot in
      let (p, at, l, d) = v.slots s (mod-lt (w.start_idx + 1) some_slot) in
      let (h', run, agree) =
        run_list-frees (ts s) fuel (record w { start_idx = s; start = C.add_ms w.start }) p le l d
          one in
      (
        h',
        tick_on fuel w p h' _ at run,
        λ b i t e index ne.
            agree b
              (Linked-Outside w.heap s p (ts s) b t l e (λ e'. ne (pos-inj i s (sym index ∙ e')))),
      )

  -- The lists after one of them has run.
  pub cleared_slot-Holds :
      (w : TimeWheel C) (h' : ℕ → Option (Timer C)) (ts : ℕ → List ℕ) (s : ℕ)
      → HoldsTimers w ts
      → s < w.num_slot
      → ((b i : ℕ) (t : Timer C) → w.heap b ≡ some t → t.index ≡ pos i → i ≢ s → h' b ≡ w.heap b)
      → Holds h' (set w.slot s none) w.num_slot (λ i. if i == s then [] else ts i)
  cleared_slot-Holds w h' ts s v below agree =
      Holds-set w.heap h' w.slot w.num_slot ts s none [] v below refl tt (λ i q lt ne linked.
        Linked-agree w.heap h' i q (ts i) (λ b t e index. agree b i t e index ne) linked)

  -- A round of the loop of tock, where the timers of the next slot do not repeat, returns with no
  -- more rounds of fuel than they are: it makes that slot the current one, runs exactly its timers,
  -- in the order of its list, and leaves it empty and the other lists as they were.
  pub tick_round-Holds :
      (fuel : ℕ) (w : TimeWheel C) (ts : ℕ → List ℕ)
      → HoldsTimers w ts
      → 0 < w.num_slot
      → OneShot w.heap (ts ((w.start_idx + 1) % w.num_slot))
      → length (ts ((w.start_idx + 1) % w.num_slot)) ≤ fuel
      → (w' : TimeWheel C) × (tick_round fuel w
          ≡ some (w', ids w.heap (ts ((w.start_idx + 1) % w.num_slot))))
        × HoldsTimers w' (λ i. if i == (w.start_idx + 1) % w.num_slot then [] else ts i)
        × (w'.start_idx ≡ (w.start_idx + 1) % w.num_slot)
  tick_round-Holds fuel w ts v some_slot one le =
      let (h', run, agree) = tick_round-heap fuel w ts v some_slot one le in
      (_, run, cleared_slot-Holds w h' ts _ v (mod-lt (w.start_idx + 1) some_slot) agree, refl)
