-- ===== src/Ds/LazyList/Threads/Steps.antt =====
-- What a step should do to the sorted list, and the steps that write to no node.
use libeva.Base.{
  some_not_none, ℕ, ◌≡◌, ◌≢◌, refl, sym, ap, ◌∙◌, inl, inr, Bool, true, false, Option, none, some,
  List, arith, Bool-cases, Option-cases, ◌==◌, ==_iff, if◌then◌else◌,
}
use libeva.Ds.Sorted.{IsOrder, insert, delete, find}
use libeva.Ds.LazyList.{Node, validate}
use libeva.Ds.LazyList.Shape.{entries, Holds}
use libeva.Ds.LazyList.Refine.{is_found}
use libeva.Ds.LazyList.Threads.{
  Shared, Write, to_add, to_remove, Next, again, answer, Pc, idle, entering, walking, found,
  has_pred, has_both, valid, freeing, deleted, leaving, leaving_pred, returned, looking, reading,
  asking, got, faulted, Rests, Touches, go_on, take_lock, drop_lock, System, moved, Move,
}
use libeva.Ds.LazyList.Threads.Invariant.{Fits, Local, Inv}
use libeva.Ds.LazyList.Threads.Located.{Locked, stepped}

module _ {T : Type 0} (cmp : T → T → Bool) where
  -- What the next step of a thread does to the entries.
  abbrev pub effect : Pc T → List T → List T
  effect (valid to_add key pred curr) xs = insert cmp key xs
  effect (valid to_remove key pred curr) xs = delete cmp key xs
  effect p xs = xs

  -- Where it leads: a thread that has validated answers as a sorted list does, a thread that has
  -- deleted a node faults, and no other step of a thread that has both locks or releases one
  -- faults.
  abbrev pub Answers : List T → Pc T → Pc T → Type 0
  Answers xs (valid to_add key pred curr) p = p ≡ leaving (answer true) pred curr
  Answers xs (valid to_remove key pred curr) p =
      p
      ≡ (if is_found (find cmp key xs) then freeing pred curr else leaving (answer false) pred curr)
  Answers xs (deleted pred curr) p = p ≡ faulted
  Answers xs (entering w key) p = p ≢ faulted
  Answers xs (has_both w key pred curr) p = p ≢ faulted
  Answers xs (freeing pred curr) p = p ≢ faulted
  Answers xs (leaving next pred curr) p = p ≢ faulted
  Answers xs (leaving_pred next pred) p = p ≢ faulted
  Answers xs q p = Unit

  -- A step between two calls.
  pub Rests-quiet : (xs : List T) (q p : Pc T) → Rests q → (effect q xs ≡ xs) × Answers xs q p
  Rests-quiet xs idle p r = (refl, tt)
  Rests-quiet xs (returned b) p r = (refl, tt)
  Rests-quiet xs (got x) p r = (refl, tt)
  Rests-quiet xs (entering w key) p r = absurd r
  Rests-quiet xs (walking w key pred curr) p r = absurd r
  Rests-quiet xs (found w key pred curr) p r = absurd r
  Rests-quiet xs (has_pred w key pred curr) p r = absurd r
  Rests-quiet xs (has_both w key pred curr) p r = absurd r
  Rests-quiet xs (valid w key pred curr) p r = absurd r
  Rests-quiet xs (freeing pred curr) p r = absurd r
  Rests-quiet xs (deleted pred curr) p r = absurd r
  Rests-quiet xs (leaving next pred curr) p r = absurd r
  Rests-quiet xs (leaving_pred next pred) p r = absurd r
  Rests-quiet xs (looking key) p r = absurd r
  Rests-quiet xs (reading key curr) p r = absurd r
  Rests-quiet xs (asking key curr) p r = absurd r
  Rests-quiet xs faulted p r = absurd r

pub validate-Passed :
    {T : Type 0} (m : Shared T) {pred curr : ℕ} {p c : Node T}
    → m.list.heap pred ≡ some p
    → m.list.heap curr ≡ some c
    → validate m.list pred curr ≡ some true
    → (p.marked ≡ false) × (c.marked ≡ false) × (p.next ≡ some curr)
unfolding validate
validate-Passed m {p = p} ep ec e = elim (Option-cases p.next) [
  | inl n ↦ ground (arith, ep, ec, e, n)
  | inr (a, n) ↦ ground (arith, ep, ec, e, n)
]

-- A sorted list that each next step changes as it should.
abbrev pub AtOnce : {T : Type 0} → (T → T → Bool) → T → T → System T → Type 0
AtOnce {T} cmp default max_val s =
    (xs : List T) × Holds cmp default max_val s.mem.list xs
    × ((t : ℕ) (m : Shared T) (p : Pc T)
        → Move cmp default max_val s.mem t (s.pcs t) m p
        → Holds cmp default max_val m.list (effect cmp (s.pcs t) xs) × Answers cmp xs (s.pcs t) p)

pub go_on-Local :
    {T : Type 0} (cmp : T → T → Bool) (max_val : T) (m : Shared T) (u : ℕ) (next : Next T)
    → Fits cmp max_val next
    → Local cmp max_val m u (go_on next)
go_on-Local cmp max_val m u (again w key) k = k
go_on-Local cmp max_val m u (answer b) k = tt

pub go_on-alive : {T : Type 0} (next : Next T) → go_on next ≢ faulted
go_on-alive (again w key) e = cc
go_on-alive (answer b) e = cc

module _ {T : Type 0} (cmp : T → T → Bool) (default max_val : T) where
  abbrev pub Refined : Shared T → ℕ → Pc T → Shared T → Pc T → (ℕ → Pc T) → List (ℕ × T) → Type 0
  Refined m u q m' p pcs ns =
      (ns' : List (ℕ × T)) × Inv cmp max_val default m' (moved pcs u p) ns'
      × (entries ns' ≡ effect cmp q (entries ns))
      × Answers cmp (entries ns) q p

module _ {T : Type 0} {cmp : T → T → Bool} {default max_val : T} (o : IsOrder cmp) where
  -- A step that writes to no node.
  module _ {m : Shared T} {pcs : ℕ → Pc T} {ns : List (ℕ × T)} (u : ℕ)
      (v : Inv cmp max_val default m pcs ns) where
    pub lock_step :
        (h : ℕ → Option ℕ) (q p : Pc T)
        → ((a t : ℕ) → t ≢ u → m.holder a ≡ some t → h a ≡ some t)
        → Local cmp max_val (record m { holder = h }) u p
        → entries ns ≡ effect cmp q (entries ns)
        → Answers cmp (entries ns) q p
        → Refined cmp default max_val m u q (record m { holder = h }) p pcs ns
    lock_step h q p holders own e ans = (
      ns,
      stepped o u p v
          (record {
            untouched = λ a lt h. refl;
            holders = holders;
            old_entry = λ a n lt e. (n, e, λ k. refl);
            grows = omega arith;
            same_head = refl;
          })
          own
          (λ loc. record {
            list = v.list;
            nodes = v.nodes;
            bounded = v.bounded;
            links = v.links;
            local = loc;
          }),
      e,
      ans,
    )

    pub quiet_step :
        (q p : Pc T)
        → Local cmp max_val m u p
        → entries ns ≡ effect cmp q (entries ns)
        → Answers cmp (entries ns) q p
        → Refined cmp default max_val m u q m p pcs ns
    quiet_step q p own e ans = lock_step m.holder q p (λ a t ne h. h) own e ans

    pub take_step :
        (a : ℕ) (q p : Pc T)
        → m.holder a ≡ none
        → Local cmp max_val (take_lock m a u) u p
        → entries ns ≡ effect cmp q (entries ns)
        → Answers cmp (entries ns) q p
        → Refined cmp default max_val m u q (take_lock m a u) p pcs ns
    take_step a q p unheld own e ans =
        lock_step _ q p
          (λ b t ne h. elim (Bool-cases (b == a)) [
            | inl same ↦
                let clash = sym (ap m.holder ((==_iff b a).0 same) ∙ unheld) ∙ h in
                absurd (some_not_none clash refl)
            | inr other ↦ rw other h
          ])
          own e ans

    pub drop_step :
        (a : ℕ) (q p : Pc T)
        → m.holder a ≡ some u
        → Local cmp max_val (drop_lock m a) u p
        → entries ns ≡ effect cmp q (entries ns)
        → Answers cmp (entries ns) q p
        → Refined cmp default max_val m u q (drop_lock m a) p pcs ns
    drop_step a q p mine own e ans =
        lock_step _ q p
          (λ b t ne h. elim (Bool-cases (b == a)) [
            | inl same ↦
                let one : some u ≡ some t = sym (ap m.holder ((==_iff b a).0 same) ∙ mine) ∙ h in
                absurd (ne (cc))
            | inr other ↦ rw other h
          ])
          own e ans

    pub kept_lock : (a b : ℕ) → b ≢ a → m.holder b ≡ some u → (drop_lock m a).holder b ≡ some u
    kept_lock a b ne h = ground (arith, ne, h)

    pub locked_too : (a b : ℕ) → m.holder b ≡ some u → (take_lock m a u).holder b ≡ some u
    locked_too a b h = ground (arith, h)

    pub now_locked : (a : ℕ) → (take_lock m a u).holder a ≡ some u
    now_locked a = ground arith

    pub Local-Locked :
        (w : Write) {key : T} {pred curr : ℕ} (p c : Node T)
        → Local cmp max_val m u (valid w key pred curr)
        → m.list.heap pred ≡ some p
        → m.list.heap curr ≡ some c
        → Locked cmp max_val m u key pred curr p c
    Local-Locked w {key = key} {pred = pred} {curr = curr} p c
          (k, a, b, h, g, (p', c', ep', mp, np, ec', mc)) ep ec =
        let one : some p' ≡ some p = sym ep' ∙ ep in
        let p_same : p' ≡ p = cc in
        let two : some c' ≡ some c = sym ec' ∙ ec in
        let c_same : c' ≡ c = cc in
        record {
          fits = k;
          before = a;
          behind = b;
          hp = h;
          hc = g;
          ep = ep;
          mp = ap (λ n. n.marked) (sym p_same) ∙ mp;
          np = ap (λ n. n.next) (sym p_same) ∙ np;
          ec = ec;
          mc = ap (λ n. n.marked) (sym c_same) ∙ mc;
        }

    -- A fault, which no step under a lock is.
    pub fault-quiet :
        (q : Pc T) (a : ℕ)
        → Local cmp max_val m u q
        → Touches m.list q a
        → m.list.heap a ≡ none
        → (entries ns ≡ effect cmp q (entries ns)) × Answers cmp (entries ns) q faulted
    fault-quiet idle a l touch e = absurd touch
    fault-quiet (entering w key) a l touch e =
        absurd (some_not_none (ap m.list.heap touch ∙ v.list.head_cell) e)
    fault-quiet (walking w key pred curr) a l touch e = (refl, tt)
    fault-quiet (found w key pred curr) a l touch e = (refl, tt)
    fault-quiet (has_pred w key pred curr) a l touch e = (refl, tt)
    fault-quiet (has_both w key pred curr) a (k, x, y, h, g, ne) touch e = elim touch [
      | inl at ↦ absurd (some_not_none (ap m.list.heap at ∙ h.2.1) e)
      | inr at ↦ absurd (some_not_none (ap m.list.heap at ∙ g.2.1) e)
    ]
    fault-quiet (valid w key pred curr) a (k, x, y, h, g, r) touch e = elim touch [
      | inl at ↦ absurd (some_not_none (ap m.list.heap at ∙ h.2.1) e)
      | inr at ↦ absurd (some_not_none (ap m.list.heap at ∙ g.2.1) e)
    ]
    fault-quiet (freeing pred curr) a (h, g, r, x) touch e =
        absurd (some_not_none (ap m.list.heap touch ∙ g.2.1) e)
    fault-quiet (deleted pred curr) a l touch e = (refl, refl)
    fault-quiet (leaving next pred curr) a (k, h, g, r) touch e =
        absurd (some_not_none (ap m.list.heap touch ∙ g.2.1) e)
    fault-quiet (leaving_pred next pred) a (k, h) touch e =
        absurd (some_not_none (ap m.list.heap touch ∙ h.2.1) e)
    fault-quiet (returned b) a l touch e = absurd touch
    fault-quiet (looking key) a l touch e = (refl, tt)
    fault-quiet (reading key curr) a l touch e = (refl, tt)
    fault-quiet (asking key curr) a l touch e = (refl, tt)
    fault-quiet (got x) a l touch e = absurd touch
    fault-quiet faulted a l touch e = absurd touch
