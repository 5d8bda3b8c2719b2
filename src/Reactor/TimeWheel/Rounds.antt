-- ===== src/Reactor/TimeWheel/Rounds.antt =====
-- libeva/TimeWheel/TimeWheel.cc: what several rounds of `tock` run.
use mathlib.Core.Path.{fun_ext}
use libeva.Base.{
  ℕ, zero, suc, ◌+◌, ◌-◌, ◌%◌, ◌<◌, ◌≤◌, ◌≡◌, ◌≢◌, refl, sym, ap, ap₂, subst, ◌∙◌, inl, inr, true,
  false, Option, none, some, List, [], ◌∷◌, ◌++◌, arith, ◌==◌, if◌then◌else◌, length, append_assoc,
  append-nil, Bool-cases, set, ltb, ltb→lt,
}
use native.Mathlib.Nat.{mod-lt, mod-eq_of_lt, mod-eq-sub-mod, mod-add-mod}
use libeva.Reactor.Timer.{Clock, Timer}
use libeva.Reactor.TimeWheel.{TimeWheel, tick_round, tick_rounds}
use libeva.Reactor.TimeWheel.Shape.{HoldsTimers}
use libeva.Reactor.TimeWheel.Ticks.{OneShot, ids, Linked-ids, tick_round-heap, cleared_slot-Holds}

abbrev pub clear : ℕ → (ℕ → List ℕ) → ℕ → List ℕ
clear s names i = if i == s then [] else names i

-- One more at the front of a slot.
abbrev pub plus : ℕ → ℕ → (ℕ → List ℕ) → ℕ → List ℕ
plus s x names i = if i == s then x ∷ names s else names i

-- What `n` rounds run: the lists of the next `n` slots, each of them once.
abbrev pub due : ℕ → (ℕ → List ℕ) → ℕ → ℕ → List ℕ
due num names idx zero = []
due num names idx (suc n) =
    names ((idx + 1) % num) ++ due num (clear ((idx + 1) % num) names) ((idx + 1) % num) n

-- Less than a turn further on is another slot.
slot_apart : (num idx k : ℕ) → suc k < num → (idx + 1) % num ≢ (idx + suc (suc k)) % num
slot_apart num idx k lt e =
    let r = (idx + 1) % num in
    let below : r < num = mod-lt (idx + 1) (omega arith) in
    let shift : (r + suc k) % num ≡ (idx + suc (suc k)) % num =
      mod-add-mod (idx + 1) num (suc k)
      ∙ ap (λ n. n % num) {x = idx + 1 + suc k} {y = idx + suc (suc k)} (omega arith) in
    elim (Bool-cases (ltb (r + suc k) num)) [
      | inl small ↦
          let q = mod-eq_of_lt {n = r + suc k} {m = num} (ltb→lt (r + suc k) num small) in
          absurd (omega (arith, q, shift, e))
      | inr big ↦
          let up : num ≤ r + suc k = ground arith in
          let q = mod-eq-sub-mod {n = r + suc k} {m = num} up in
          let q' = mod-eq_of_lt {n = r + suc k - num} {m = num} (omega arith) in
          absurd (omega (arith, q, q', shift, e))
    ]

clear-plus :
    (s s' x : ℕ) (names : ℕ → List ℕ)
    → s' ≢ s
    → clear s' (plus s x names) ≡ plus s x (clear s' names)
clear-plus s s' x names ne = fun_ext at
  where
    at : (i : ℕ) → clear s' (plus s x names) i ≡ plus s x (clear s' names) i
    at i = elim (Bool-cases (i == s')) [
      | inl e ↦ ground (arith, e, ne)
      | inr e ↦ elim (Bool-cases (i == s)) [
        | inl e' ↦ ground (arith, e, e', ne)
        | inr e' ↦ ground (arith, e, e', ne)
      ]
    ]

-- What stands `k + 1` slots further on comes after `k` rounds, at the front of its slot.
pub due-plus :
    (k num idx x : ℕ) (names : ℕ → List ℕ)
    → suc k < num
    → due num (plus ((idx + suc k) % num) x names) idx (suc k)
      ≡ due num names idx k ++ (x ∷ names ((idx + suc k) % num))
due-plus zero num idx x names lt =
    let here : ((idx + 1) % num == (idx + 1) % num) ≡ true = ground arith in
    rw here (append-nil (x ∷ names ((idx + 1) % num)))
due-plus (suc k) num idx x names lt =
    let s = (idx + suc (suc k)) % num in
    let s' = (idx + 1) % num in
    let ne = slot_apart num idx k (omega arith) in
    let differ : (s' == s) ≡ false = ground (arith, ne) in
    let differ' : (s == s') ≡ false = ground (arith, ne) in
    let at : (s' + suc k) % num ≡ s =
      mod-add-mod (idx + 1) num (suc k)
      ∙ ap (λ n. n % num) {x = idx + 1 + suc k} {y = idx + suc (suc k)} (omega arith) in
    let ih =
      subst
        (λ m.
          due num (plus m x (clear s' names)) s' (suc k)
          ≡ due num (clear s' names) s' k ++ (x ∷ clear s' names m))
        at (due-plus k num s' x (clear s' names) (omega arith)) in
    let first : plus s x names s' ≡ names s' = rw differ refl in
    let last : clear s' names s ≡ names s = rw differ' refl in
    ap₂ ◌++◌ first (
      ap (λ f. due num f s' (suc k)) (clear-plus s s' x names ne)
      ∙ ih
      ∙ ap (λ l. due num (clear s' names) s' k ++ (x ∷ l)) last)
    ∙ sym (append_assoc (names s') (due num (clear s' names) s' k) (x ∷ names s))

module _ {C : Clock} where
  -- The slots hold the lists `ts` of timers that do not repeat, at most `fuel` in each, with the ids
  -- `names`.
  pub record Schedule (fuel : ℕ) (w : TimeWheel C) (ts names : ℕ → List ℕ) : Type 0 where
    pub holds : HoldsTimers w ts
    pub some_slot : 0 < w.num_slot
    pub once : (i : ℕ) → i < w.num_slot → OneShot w.heap (ts i)
    pub enough : (i : ℕ) → i < w.num_slot → length (ts i) ≤ fuel
    pub named : (i : ℕ) → i < w.num_slot → ids w.heap (ts i) ≡ names i

  -- After a round that leaves the heap `h'`.
  abbrev ticked : TimeWheel C → (ℕ → Option (Timer C)) → TimeWheel C
  ticked w h' = record w {
    heap = h';
    start_idx = (w.start_idx + 1) % w.num_slot;
    start = C.add_ms w.start;
    slot = set w.slot ((w.start_idx + 1) % w.num_slot) none;
  }

  tick_round-Schedule :
      (fuel : ℕ) (w : TimeWheel C) (ts names : ℕ → List ℕ)
      → Schedule fuel w ts names
      → (w' : TimeWheel C) × (tick_round fuel w ≡ some (w', names ((w.start_idx + 1) % w.num_slot)))
        × Schedule fuel w'
            (clear ((w.start_idx + 1) % w.num_slot) ts)
            (clear ((w.start_idx + 1) % w.num_slot) names)
        × (w'.start_idx ≡ (w.start_idx + 1) % w.num_slot)
        × (w'.num_slot ≡ w.num_slot)
  tick_round-Schedule fuel w ts names v =
      let s = (w.start_idx + 1) % w.num_slot in
      let below : s < w.num_slot = mod-lt (w.start_idx + 1) v.some_slot in
      let (h', run, agree) =
        tick_round-heap fuel w ts v.holds v.some_slot (v.once s below) (v.enough s below) in
      let kept : (i : ℕ)
          → i < w.num_slot
          → i ≢ s
          → (ids h' (ts i) ≡ ids w.heap (ts i)) × OneShot h' (ts i) =
        λ i lt ne.
          let (p, at, l, d) = v.holds.slots i lt in
          Linked-ids w.heap h' i p (ts i) (λ b t e index. agree b i t e index ne) l (v.once i lt) in
      let v' : Schedule fuel (ticked w h') (clear s ts) (clear s names) = record {
        holds = cleared_slot-Holds w h' ts s v.holds below agree;
        some_slot = v.some_slot;
        once = λ i lt. elim (Bool-cases (i == s)) [
          | inl e ↦ rw e tt
          | inr e ↦ rw e (kept i lt (λ q. ground (arith, q, e))).1
        ];
        enough = λ i lt. elim (Bool-cases (i == s)) [
          | inl e ↦ rw e (omega arith)
          | inr e ↦ rw e (v.enough i lt)
        ];
        named = λ i lt. elim (Bool-cases (i == s)) [
          | inl e ↦ rw e refl
          | inr e ↦ rw e ((kept i lt (λ q. ground (arith, q, e))).0 ∙ v.named i lt)
        ];
      } in
      (ticked w h', run ∙ ap (λ l. some (ticked w h', l)) (v.named s below), v', refl, refl)

  -- The loop of tock, where no timer of the wheel repeats, returns: each of its rounds runs the
  -- timers of the next slot, in the order of its list, and so every timer of the wheel at most once,
  -- however many rounds there are.
  pub tick_rounds-due :
      (n fuel : ℕ) (w : TimeWheel C) (ts names : ℕ → List ℕ)
      → Schedule fuel w ts names
      → (w' : TimeWheel C) × (tick_rounds fuel n w ≡ some (w', due w.num_slot names w.start_idx n))
  unfolding tick_rounds
  tick_rounds-due zero fuel w ts names v = (w, refl)
  tick_rounds-due (suc n) fuel w ts names v =
      let s = (w.start_idx + 1) % w.num_slot in
      let (w1, run, v1, idx, num) = tick_round-Schedule fuel w ts names v in
      let (w', rest) = tick_rounds-due n fuel w1 (clear s ts) (clear s names) v1 in
      let rest' : tick_rounds fuel n w1 ≡ some (w', due w.num_slot (clear s names) s n) =
        rest ∙ ap₂ (λ m i. some (w', due m (clear s names) i n)) num idx in
      (w', rw run (rw rest' refl))
