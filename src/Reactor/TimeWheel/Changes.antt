-- ===== src/Reactor/TimeWheel/Changes.antt =====
-- libeva/TimeWheel/TimeWheel.cc: what adding and cancelling a timer does to the lists of the slots.
use libeva.Base.{
  ℕ, zero, suc, ◌+◌, ◌%◌, ◌<◌, ◌≡◌, ◌≢◌, refl, subst, sym, ap, ◌∙◌, Option, none, some, List, [],
  ◌∷◌, arith, ◌==◌, if◌then◌else◌, get_elem?, set, replicate, length-replicate, true, false, leb,
}
use native.Mathlib.Nat.{mod-lt}
use libeva.Reactor.Timer.{ℤ, pos, negsuc, Clock, Timer, put}
use libeva.Reactor.TimeWheel.{
  TimeWheel, init, add_timer, add_timer_in_reactor, cancel_in_reactor, is_at,
}
use libeva.Reactor.TimeWheel.Shape.{
  Outside, Distinct, Linked, HoldsTimers, Linked-put, Linked-Outside, Holds-set,
}

pub pos-inj : (i j : ℕ) → pos i ≡ pos j → i ≡ j
pos-inj i j e = ap index e
  where
    index : ℤ → ℕ
    index (pos n) = n
    index (negsuc n) = n

get_elem?-replicate : (n i : ℕ) → i < n → get_elem? (replicate {A = Option ℕ} n none) i ≡ some none
get_elem?-replicate zero i lt = absurd (omega arith)
get_elem?-replicate (suc n) zero lt = refl
get_elem?-replicate (suc n) (suc i) lt = get_elem?-replicate n i (omega arith)

Outside-get : (b : ℕ) (bs : List ℕ) (k a : ℕ) → Outside b bs → get_elem? bs k ≡ some a → a ≢ b
Outside-get b [] k a out e = cc
Outside-get b (c ∷ cs) zero a (ne, out) e = λ same. ne (ground (arith, e, same))
Outside-get b (c ∷ cs) (suc k) a (ne, out) e = Outside-get b cs k a out e

module _ {C : Clock} where
  pub init-Holds : (num : ℕ) → HoldsTimers {C = C} (init num) (λ i. [])
  unfolding init
  init-Holds num = record {
    size = length-replicate num none;
    slots = λ i lt. (none, get_elem?-replicate num i lt, refl, tt);
  }

  -- The first timer of a slot, where it has one, has no `pre_`.
  abbrev pub NoPre : (ℕ → Option (Timer C)) → Option ℕ → Type 0
  NoPre h none = Unit
  NoPre h (some b) = (f : Timer C) × (h b ≡ some f) × (f.pre ≡ none)

  Linked-NoPre :
      (h : ℕ → Option (Timer C)) (i : ℕ) (p : Option ℕ) (ps : List ℕ) → Linked h i p ps → NoPre h p
  Linked-NoPre h i p [] l = subst (NoPre h) (sym l) tt
  Linked-NoPre h i p (b ∷ bs) (e, f, at, index, pre, l) = subst (NoPre h) (sym e) (f, at, pre)

  -- The timer `t`, which stands at `a`, at the front of the slot `s`.
  abbrev pub added : TimeWheel C → ℕ → Timer C → ℕ → Option ℕ → TimeWheel C
  added w a t s p = record w {
    heap = put w.heap a (some (record t { next = p; index = pos s }));
    slot = set w.slot s (some a);
  }

  pub add_timer-added :
      (w : TimeWheel C) (a : ℕ) (t : Timer C) (d : ℕ) (p : Option ℕ)
      → w.heap a ≡ some t
      → t.next ≡ none
      → d < w.num_slot
      → get_elem? w.slot ((w.start_idx + d) % w.num_slot) ≡ some p
      → NoPre w.heap p
      → add_timer w a (pos d) ≡ some (added w a t ((w.start_idx + d) % w.num_slot) p)
  unfolding add_timer
  add_timer-added w a t d none e next lt at front =
      let near : leb w.num_slot d ≡ false = ground arith in
      rw near (rw at (rw e (ap (λ n. some (added w a t ((w.start_idx + d) % w.num_slot) n)) next)))
  add_timer-added w a t d (some b) e next lt at (f, at_b, pre_b) =
      let near : leb w.num_slot d ≡ false = ground arith in
      rw near (rw at (rw e (rw at_b (rw pre_b refl))))

  pub add_timer_in_reactor-add_timer :
      (w : TimeWheel C) (a : ℕ) (t : Timer C)
      → w.heap a ≡ some t
      → add_timer_in_reactor w a ≡ add_timer w a (C.ms_between t.expiration w.start)
  unfolding add_timer_in_reactor
  add_timer_in_reactor-add_timer w a t e = rw e refl

  -- The wheel after `addTimer`, with the slot that it uses.
  pub add_timer-at :
      (w : TimeWheel C) (ts : ℕ → List ℕ) (a : ℕ) (t : Timer C) (d : ℕ)
      → HoldsTimers w ts
      → w.heap a ≡ some t
      → t.pre ≡ none
      → t.next ≡ none
      → ((i : ℕ) → i < w.num_slot → Outside a (ts i))
      → d < w.num_slot
      → let s = (w.start_idx + d) % w.num_slot in
        (p : Option ℕ) × (add_timer w a (pos d) ≡ some (added w a t s p))
        × HoldsTimers (added w a t s p) (λ i. if i == s then a ∷ ts s else ts i)
  add_timer-at w ts a t d v e pre next out lt =
      let s = (w.start_idx + d) % w.num_slot in
      let below : s < w.num_slot = mod-lt (w.start_idx + d) (omega arith) in
      let (p, at, l, dist) = v.slots s below in
      let put_a : put w.heap a (some (record t { next = p; index = pos s })) a
          ≡ some (record t { next = p; index = pos s }) =
        ground arith in
      (
        p,
        add_timer-added w a t d p e next lt at (Linked-NoPre w.heap s p (ts s) l),
        Holds-set w.heap _ w.slot w.num_slot ts s (some a) (a ∷ ts s) v below
            (refl, _, put_a, refl, pre, Linked-put w.heap s p (ts s) a _ (out s below) l)
            (out s below, dist)
            (λ i q lt' ne linked. Linked-put w.heap i q (ts i) a _ (out i lt') linked),
      )

  -- addTimer of a timer that stands in no slot, at a difference to start_ of at least 0 and less
  -- than numSlot_ milliseconds, returns: the timer is then the first of the slot that many places
  -- after startIdx_, and the lists are otherwise as before.
  pub add_timer-Holds :
      (w : TimeWheel C) (ts : ℕ → List ℕ) (a : ℕ) (t : Timer C) (d : ℕ)
      → HoldsTimers w ts
      → w.heap a ≡ some t
      → t.pre ≡ none
      → t.next ≡ none
      → ((i : ℕ) → i < w.num_slot → Outside a (ts i))
      → d < w.num_slot
      → (w' : TimeWheel C) × (add_timer w a (pos d) ≡ some w')
        × HoldsTimers w' (λ i.
          if i == (w.start_idx + d) % w.num_slot
          then a ∷ ts ((w.start_idx + d) % w.num_slot)
          else ts i)
  add_timer-Holds w ts a t d v e pre next out lt =
      let (p, q, h) = add_timer-at w ts a t d v e pre next out lt in (_, q, h)

  -- What is known of the timer at a place of a list.
  Linked-get :
      (h : ℕ → Option (Timer C)) (i : ℕ) (p : Option ℕ) (ps : List ℕ) (k a : ℕ)
      → Linked h i p ps
      → get_elem? ps k ≡ some a
      → (t : Timer C) × (h a ≡ some t) × (t.index ≡ pos i) × (t.pre ≡ none)
  Linked-get h i p [] k a l e = cc
  Linked-get h i p (b ∷ bs) zero a (q, t, at, index, pre, l) e =
      (t, ground (arith, at, e), index, pre)
  Linked-get h i p (b ∷ bs) (suc k) a (q, t, at, index, pre, l) e = Linked-get h i t.next bs k a l e

  cancel-first :
      (w : TimeWheel C) (a : ℕ) (t : Timer C) (i : ℕ)
      → w.heap a ≡ some t
      → t.index ≡ pos i
      → get_elem? w.slot i ≡ some (some a)
      → cancel_in_reactor w a
        ≡ some (record w { slot = set w.slot i t.next; heap = put w.heap a none })
  unfolding cancel_in_reactor
  cancel-first w a t i e index at =
      let same : (a == a) ≡ true = ground arith in rw e (rw index (rw at (rw same refl)))

  cancel-other :
      (w : TimeWheel C) (a : ℕ) (t : Timer C) (i : ℕ) (p : Option ℕ)
      → w.heap a ≡ some t
      → t.index ≡ pos i
      → t.pre ≡ none
      → get_elem? w.slot i ≡ some p
      → is_at p a ≡ false
      → cancel_in_reactor w a ≡ none
  unfolding cancel_in_reactor
  cancel-other w a t i p e index pre at differ = rw e (rw index (rw at (rw differ (rw pre refl))))

  not_first :
      (h : ℕ → Option (Timer C)) (i : ℕ) (p : Option ℕ) (ps : List ℕ) (k a : ℕ)
      → Linked h i p ps
      → Distinct ps
      → get_elem? ps (suc k) ≡ some a
      → is_at p a ≡ false
  not_first h i p [] k a l d e = cc
  not_first h i p (b ∷ bs) k a (q, t, at, index, pre, l) (out, d) e =
      let ne = Outside-get b bs k a out e in
      let differ : (b == a) ≡ false = ground (arith, ne) in rw q differ

  -- cancelInReactor of the first timer of a slot takes it out of its list, frees it, and leaves the
  -- other lists as they were.
  pub cancel-Holds :
      (w : TimeWheel C) (ts : ℕ → List ℕ) (i a : ℕ) (rest : List ℕ)
      → HoldsTimers w ts
      → i < w.num_slot
      → ts i ≡ a ∷ rest
      → (w' : TimeWheel C) × (cancel_in_reactor w a ≡ some w')
        × HoldsTimers w' (λ j. if j == i then rest else ts j)
        × (w'.heap a ≡ none)
  cancel-Holds w ts i a rest v below e =
      let (p, at, l, dist) = v.slots i below in
      let (q, t, at_a, index, pre, l') = subst (Linked w.heap i p) e l in
      let (out, dist') = subst Distinct e dist in
      let gone : put w.heap a none a ≡ none = ground arith in
      (
        record w { slot = set w.slot i t.next; heap = put w.heap a none },
        cancel-first w a t i at_a index (at ∙ ap some q),
        Holds-set w.heap _ w.slot w.num_slot ts i t.next rest v below
            (Linked-put w.heap i t.next rest a none out l') dist'
            (λ j p' lt ne linked.
              Linked-put w.heap j p' (ts j) a none
                (Linked-Outside w.heap j p' (ts j) a t linked at_a
                  (λ e'. ne (pos-inj j i (sym e' ∙ index))))
                linked),
        gone,
      )

  -- cancelInReactor of a timer that is in the list of a slot, and not its first, writes through a
  -- null pre_.
  pub cancel-fault :
      (w : TimeWheel C) (ts : ℕ → List ℕ) (i k a : ℕ)
      → HoldsTimers w ts
      → i < w.num_slot
      → get_elem? (ts i) (suc k) ≡ some a
      → cancel_in_reactor w a ≡ none
  cancel-fault w ts i k a v below e =
      let (p, at, l, dist) = v.slots i below in
      let (t, at_a, index, pre) = Linked-get w.heap i p (ts i) (suc k) a l e in
      cancel-other w a t i p at_a index pre at (not_first w.heap i p (ts i) k a l dist e)
