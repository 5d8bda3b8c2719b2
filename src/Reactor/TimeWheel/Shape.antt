-- ===== src/Reactor/TimeWheel/Shape.antt =====
-- libeva/TimeWheel: the lists of timers that the slots hold.
use libeva.Base.{
  ℕ, ◌<◌, ◌≡◌, ◌≢◌, subst, sym, ◌∙◌, inl, inr, Option, none, some, List, [], ◌∷◌, arith, ◌==◌,
  if◌then◌else◌, Bool-cases, ==_iff, length, get_elem?, set, length-set, get_elem?-set_same,
  get_elem?-set_other,
}
use libeva.Reactor.Timer.{pos, Clock, Timer, put}
use libeva.Reactor.TimeWheel.{TimeWheel}

abbrev pub Outside : ℕ → List ℕ → Type 0
Outside a [] = Unit
Outside a (b ∷ bs) = (b ≢ a) × Outside a bs

abbrev pub Distinct : List ℕ → Type 0
Distinct [] = Unit
Distinct (a ∷ ps) = Outside a ps × Distinct ps

module _ {C : Clock} where
  -- From `p` on the timers `ps` are linked, each with the index of the slot and none with `pre_` set.
  abbrev pub Linked : (ℕ → Option (Timer C)) → ℕ → Option ℕ → List ℕ → Type 0
  Linked h i p [] = p ≡ none
  Linked h i p (a ∷ ps) =
      (p ≡ some a)
      × (t : Timer C) × (h a ≡ some t)
      × (t.index ≡ pos i)
      × (t.pre ≡ none)
      × Linked h i t.next ps

  -- The slots hold the lists `ts`.
  pub record Holds (h : ℕ → Option (Timer C)) (slot : List (Option ℕ)) (num : ℕ) (ts : ℕ → List ℕ)
      : Type 0 where
    pub size : length slot ≡ num
    pub slots :
        (i : ℕ)
        → i < num
        → (p : Option ℕ) × (get_elem? slot i ≡ some p) × Linked h i p (ts i) × Distinct (ts i)

  abbrev pub HoldsTimers : TimeWheel C → (ℕ → List ℕ) → Type 0
  HoldsTimers w ts = Holds w.heap w.slot w.num_slot ts

  pub Linked-put :
      (h : ℕ → Option (Timer C)) (i : ℕ) (p : Option ℕ) (ps : List ℕ) (a : ℕ) (v : Option (Timer C))
      → Outside a ps
      → Linked h i p ps
      → Linked (put h a v) i p ps
  Linked-put h i p [] a v out l = l
  Linked-put h i p (b ∷ bs) a v (ne, out) (e, t, at, index, pre, l) =
      (e, t, ground (arith, at, ne), index, pre, Linked-put h i t.next bs a v out l)

  pub Linked-Outside :
      (h : ℕ → Option (Timer C)) (i : ℕ) (p : Option ℕ) (ps : List ℕ) (a : ℕ) (t : Timer C)
      → Linked h i p ps
      → h a ≡ some t
      → t.index ≢ pos i
      → Outside a ps
  Linked-Outside h i p [] a t l e ne = tt
  Linked-Outside h i p (b ∷ bs) a t (q, u, at, index, pre, l) e ne = (
    λ same. ne (sym (ground (arith, e, at, same)) ∙ index),
    Linked-Outside h i u.next bs a t l e ne,
  )

  -- One slot is given another list, and the timers of the other slots stay.
  pub Holds-set :
      (h h' : ℕ → Option (Timer C)) (slot : List (Option ℕ)) (num : ℕ) (ts : ℕ → List ℕ) (s : ℕ)
      (p' : Option ℕ) (ps : List ℕ)
      → Holds h slot num ts
      → s < num
      → Linked h' s p' ps
      → Distinct ps
      → ((i : ℕ) (p : Option ℕ) → i < num → i ≢ s → Linked h i p (ts i) → Linked h' i p (ts i))
      → Holds h' (set slot s p') num (λ i. if i == s then ps else ts i)
  Holds-set h h' slot num ts s p' ps v lt l d other = record {
    size = length-set slot s p' ∙ v.size;
    slots = at_slot;
  }
    where
      at_slot :
          (i : ℕ)
          → i < num
          → (p : Option ℕ) × (get_elem? (set slot s p') i ≡ some p)
            × Linked h' i p (if i == s then ps else ts i)
            × Distinct (if i == s then ps else ts i)
      at_slot i below = elim (Bool-cases (i == s)) [
        | inl same ↦
            let here = (==_iff i s).0 same in
            (
              p',
              subst (λ k. get_elem? (set slot s p') k ≡ some p') (sym here)
                  (get_elem?-set_same slot s p' (subst (λ n. s < n) (sym v.size) lt)),
              rw same (subst (λ k. Linked h' k p' ps) (sym here) l),
              rw same d,
            )
        | inr differ ↦
            let ne : i ≢ s = λ e. ground (arith, e, differ) in
            let (p, at, linked, distinct) = v.slots i below in
            (
              p,
              get_elem?-set_other slot s i p' ne ∙ at,
              rw differ (other i p below ne linked),
              rw differ distinct,
            )
      ]
