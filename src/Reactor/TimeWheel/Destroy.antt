-- ===== src/Reactor/TimeWheel/Destroy.antt =====
-- libeva/TimeWheel/TimeWheel.cc: the destructor of the wheel frees its timers.
use libeva.Base.{
  ℕ, zero, suc, ◌+◌, ◌<◌, ◌≤◌, ◌≡◌, refl, sym, subst, ◌∙◌, Option, none, some, List, [], ◌∷◌, arith,
  length, get_elem?,
}
use mathlib.Core.Option.{some-injective}
use libeva.Reactor.Timer.{pos, Clock, Timer, put}
use libeva.Reactor.TimeWheel.{TimeWheel, free_list, free_slots}
use libeva.Reactor.TimeWheel.Shape.{
  Outside, Distinct, Linked, HoldsTimers, Linked-put, Linked-Outside,
}
use libeva.Reactor.TimeWheel.Changes.{pos-inj}
use libeva.Reactor.TimeWheel.Ticks.{Linked-agree, put_other}

get_elem?-lt :
    (xs : List (Option ℕ)) (i : ℕ) (p : Option ℕ) → get_elem? xs i ≡ some p → i < length xs
get_elem?-lt [] i p e = cc
get_elem?-lt (x ∷ xs) zero p e = omega arith
get_elem?-lt (x ∷ xs) (suc i) p e = omega (arith, get_elem?-lt xs i p e)

-- The lists behind the first.
abbrev later : (ℕ → List ℕ) → ℕ → List ℕ
later ts j = ts (suc j)

module _ {C : Clock} where
  abbrev pub AllFreed : (ℕ → Option (Timer C)) → List ℕ → Type 0
  AllFreed h [] = Unit
  AllFreed h (a ∷ ps) = (h a ≡ none) × AllFreed h ps

  free_list-AllFreed :
      (ps : List ℕ) (fuel : ℕ) (h : ℕ → Option (Timer C)) (i : ℕ) (p : Option ℕ)
      → Linked h i p ps
      → Distinct ps
      → length ps ≤ fuel
      → (h' : ℕ → Option (Timer C)) × (free_list fuel h p ≡ some h')
        × AllFreed h' ps
        × ((b : ℕ) → Outside b ps → h' b ≡ h b)
  unfolding free_list
  free_list-AllFreed [] fuel h i p l d le = (h, rw l refl, tt, λ b out. refl)
  free_list-AllFreed (a ∷ ps) zero h i p l d le = absurd (omega arith)
  free_list-AllFreed (a ∷ ps) (suc fuel) h i p (q, t, at, index, pre, l) (out, d) le =
      let (h', run, freed, agree) =
        free_list-AllFreed ps fuel (put h a none) i t.next (Linked-put h i t.next ps a none out l) d
          (omega arith) in
      let gone : put h a none a ≡ none = ground arith in
      (
        h',
        rw q (rw at run),
        (agree a out ∙ gone, freed),
        λ b outside. agree b outside.1 ∙ put_other h a b none (λ e. outside.0 (sym e)),
      )

  AllFreed-agree :
      (h h1 h' : ℕ → Option (Timer C)) (i : ℕ) (p : Option ℕ) (ps : List ℕ)
      → Linked h i p ps
      → ((b : ℕ) (t : Timer C) → h b ≡ some t → t.index ≡ pos i → h' b ≡ h1 b)
      → AllFreed h1 ps
      → AllFreed h' ps
  AllFreed-agree h h1 h' i p [] l agree f = tt
  AllFreed-agree h h1 h' i p (a ∷ ps) (q, t, at, index, pre, l) agree (f, fs) =
      (agree a t at index ∙ f, AllFreed-agree h h1 h' i t.next ps l agree fs)

  -- The slots from `k` on hold the lists `ts`.
  abbrev HoldsFrom : (ℕ → Option (Timer C)) → ℕ → List (Option ℕ) → (ℕ → List ℕ) → Type 0
  HoldsFrom h k slot ts =
      (j : ℕ) (p : Option ℕ)
      → get_elem? slot j ≡ some p
      → Linked h (k + j) p (ts j) × Distinct (ts j)

  -- A timer of the slot `k` is in no list behind it.
  not_later :
      (h : ℕ → Option (Timer C)) (k j : ℕ) (p : Option ℕ) (ps : List ℕ) (b : ℕ) (t : Timer C)
      → Linked h (k + suc j) p ps
      → h b ≡ some t
      → t.index ≡ pos k
      → Outside b ps
  not_later h k j p ps b t l e index =
      Linked-Outside h (k + suc j) p ps b t l e
        (λ q. absurd (omega (arith, pos-inj k (k + suc j) (sym index ∙ q))))

  later-HoldsFrom :
      (h h1 : ℕ → Option (Timer C)) (k : ℕ) (p : Option ℕ) (slot : List (Option ℕ))
      (ts : ℕ → List ℕ)
      → HoldsFrom h k (p ∷ slot) ts
      → Linked h k p (ts 0)
      → ((b : ℕ) → Outside b (ts 0) → h1 b ≡ h b)
      → HoldsFrom h1 (suc k) slot (later ts)
  later-HoldsFrom h h1 k p slot ts v l0 agree j q e =
      let (l, d) = v (suc j) q e in
      let up : k + suc j ≡ suc k + j = omega arith in
      let kept : Linked h1 (k + suc j) q (ts (suc j)) =
        Linked-agree h h1 (k + suc j) q (ts (suc j))
          (λ b t at index. agree b (
            Linked-Outside h k p (ts 0) b t l0 at
              (λ r. absurd (omega (arith, pos-inj k (k + suc j) (sym r ∙ index))))))
          l in
      (subst (λ i. Linked h1 i q (ts (suc j))) up kept, d)

  free_slots-AllFreed :
      (slot : List (Option ℕ)) (fuel : ℕ) (h : ℕ → Option (Timer C)) (k : ℕ) (ts : ℕ → List ℕ)
      → HoldsFrom h k slot ts
      → ((j : ℕ) → j < length slot → length (ts j) ≤ fuel)
      → (h' : ℕ → Option (Timer C)) × (free_slots fuel h slot ≡ some h')
        × ((j : ℕ) (p : Option ℕ) → get_elem? slot j ≡ some p → AllFreed h' (ts j))
        × ((b : ℕ)
            → ((j : ℕ) (p : Option ℕ) → get_elem? slot j ≡ some p → Outside b (ts j))
            → h' b ≡ h b)
  unfolding free_slots
  free_slots-AllFreed [] fuel h k ts v le = (h, refl, (λ j p e. cc), λ b out. refl)
  free_slots-AllFreed (p ∷ slot) fuel h k ts v le =
      let (l0, d) = v zero p refl in
      let l : Linked h k p (ts 0) = subst (λ i. Linked h i p (ts 0)) (omega arith) l0 in
      let (h1, run, freed, agree) = free_list-AllFreed (ts 0) fuel h k p l d (le 0 (omega arith)) in
      let (h', rest, freed', agree') =
        free_slots-AllFreed slot fuel h1 (suc k) (later ts)
          (later-HoldsFrom h h1 k p slot ts v l agree) (λ j lt. le (suc j) (omega arith)) in
      let first : AllFreed h' (ts 0) =
        AllFreed-agree h h1 h' k p (ts 0) l
          (λ b t at index.
            agree' b (λ j q e. not_later h k j q (ts (suc j)) b t (v (suc j) q e).0 at index))
          freed in
      (
        h',
        rw run rest,
        each h' p slot ts first freed',
        λ b out. agree' b (λ j q e. out (suc j) q e) ∙ agree b (out zero p refl),
      )
    where
      each :
          (h' : ℕ → Option (Timer C)) (p : Option ℕ) (slot : List (Option ℕ)) (ts : ℕ → List ℕ)
          → AllFreed h' (ts 0)
          → ((j : ℕ) (q : Option ℕ) → get_elem? slot j ≡ some q → AllFreed h' (ts (suc j)))
          → (j : ℕ) (q : Option ℕ) → get_elem? (p ∷ slot) j ≡ some q
          → AllFreed h' (ts j)
      each h' p slot ts f fs zero q e = f
      each h' p slot ts f fs (suc j) q e = fs j q e

  -- The destructor of a wheel whose slots hold lists of timers returns, with no more rounds of fuel
  -- for a slot than it has timers: it frees every timer of every list, and nothing else.
  pub free_slots-Frees :
      (fuel : ℕ) (w : TimeWheel C) (ts : ℕ → List ℕ)
      → HoldsTimers w ts
      → ((i : ℕ) → i < w.num_slot → length (ts i) ≤ fuel)
      → (h' : ℕ → Option (Timer C)) × (free_slots fuel w.heap w.slot ≡ some h')
        × ((i : ℕ) → i < w.num_slot → AllFreed h' (ts i))
        × ((b : ℕ) → ((i : ℕ) → i < w.num_slot → Outside b (ts i)) → h' b ≡ w.heap b)
  free_slots-Frees fuel w ts v le =
      let (h', run, freed, agree) =
        free_slots-AllFreed w.slot fuel w.heap 0 ts from
          (λ j lt. le j (subst (λ n. j < n) v.size lt)) in
      (
        h',
        run,
        λ i lt. let (p, at, l, d) = v.slots i lt in freed i p at,
        λ b out. agree b (λ j p e. out j (subst (λ n. j < n) v.size (get_elem?-lt w.slot j p e))),
      )
    where
      from : HoldsFrom w.heap 0 w.slot ts
      from j p e =
          let (q, at, l, d) = v.slots j (subst (λ n. j < n) v.size (get_elem?-lt w.slot j p e)) in
          let same : q ≡ p = some-injective q p (sym at ∙ e) in
          (
            subst (λ i. Linked w.heap i p (ts j)) (omega arith)
                (subst (λ r. Linked w.heap j r (ts j)) same l),
            d,
          )
