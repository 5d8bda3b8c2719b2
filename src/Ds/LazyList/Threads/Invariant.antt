-- ===== src/Ds/LazyList/Threads/Invariant.antt =====
-- What the nodes, the locks and the local variables of the threads keep to.
use libeva.Base.{
  ℕ, ◌<◌, ◌≤◌, ◌≡◌, ◌≢◌, sym, ◌∙◌, inl, inr, ◌⊎◌, Bool, true, false, Option, none, some, List,
  arith, Option-cases,
}
use libeva.Ds.LazyList.{Node}
use libeva.Ds.LazyList.Chain.{Apart}
use libeva.Ds.LazyList.Shape.{IsList}
use libeva.Ds.LazyList.Threads.{
  Shared, Next, again, answer, Pc, idle, entering, walking, found, has_pred, has_both, valid,
  freeing, deleted, leaving, leaving_pred, returned, looking, reading, asking, got, faulted,
}

module _ {T : Type 0} (cmp : T → T → Bool) (max_val : T) where
  -- The thread has the lock of a node, which is there.
  abbrev pub Held : Shared T → ℕ → ℕ → Type 0
  Held m t a =
      (m.holder a ≡ some t) × (a < m.list.fresh) × ((n : Node T) × (m.list.heap a ≡ some n))

  abbrev pub Ahead : Shared T → T → ℕ → Type 0
  Ahead m key pred =
      (pred < m.list.fresh)
      × ((p : Node T) → m.list.heap pred ≡ some p → (pred ≡ m.list.head) ⊎ (cmp p.entry key ≡ true))

  abbrev pub Behind : Shared T → T → ℕ → Type 0
  Behind m key curr =
      (curr < m.list.fresh) × ((c : Node T) → m.list.heap curr ≡ some c → cmp c.entry key ≡ false)

  -- What `validate` has found.
  abbrev pub Passed : Shared T → ℕ → ℕ → Type 0
  Passed m pred curr =
      (p : Node T) × (c : Node T) × (m.list.heap pred ≡ some p)
      × (p.marked ≡ false)
      × (p.next ≡ some curr)
      × (m.list.heap curr ≡ some c)
      × (c.marked ≡ false)

  abbrev pub Fits : Next T → Type 0
  Fits (again w key) = cmp key max_val ≡ true
  Fits (answer b) = Unit

  abbrev pub Local : Shared T → ℕ → Pc T → Type 0
  Local m t (entering w key) = cmp key max_val ≡ true
  Local m t (walking w key pred curr) =
      (cmp key max_val ≡ true) × Ahead m key pred × (curr < m.list.fresh)
  Local m t (found w key pred curr) =
      (cmp key max_val ≡ true) × Ahead m key pred × Behind m key curr
  Local m t (has_pred w key pred curr) =
      (cmp key max_val ≡ true) × Ahead m key pred × Behind m key curr × Held m t pred
  Local m t (has_both w key pred curr) =
      (cmp key max_val ≡ true)
      × Ahead m key pred
      × Behind m key curr
      × Held m t pred
      × Held m t curr
      × (pred ≢ curr)
  Local m t (valid w key pred curr) =
      (cmp key max_val ≡ true)
      × Ahead m key pred
      × Behind m key curr
      × Held m t pred
      × Held m t curr
      × Passed m pred curr
  Local m t (freeing pred curr) =
      Held m t pred
      × Held m t curr
      × (pred ≢ curr)
      × ((c : Node T) × (m.list.heap curr ≡ some c) × (c.marked ≡ true))
  Local m t (deleted pred curr) = Held m t pred × (curr < m.list.fresh) × (m.list.heap curr ≡ none)
  Local m t (leaving next pred curr) = Fits next × Held m t pred × Held m t curr × (pred ≢ curr)
  Local m t (leaving_pred next pred) = Fits next × Held m t pred
  Local m t p = Unit

  pub record Inv (default : T) (m : Shared T) (pcs : ℕ → Pc T) (ns : List (ℕ × T)) : Type 0 where
    pub list : IsList cmp default max_val m.list ns
    pub nodes :
        (a : ℕ) (n : Node T)
        → m.list.heap a ≡ some n
        → n.marked ≡ false
        → a ≢ m.list.head
        → a ≢ m.list.tail
        → Apart a ns
        → ⊥
    pub bounded : (a : ℕ) → m.list.fresh ≤ a → m.list.heap a ≡ none
    pub links : (a b : ℕ) (n : Node T) → m.list.heap a ≡ some n → n.next ≡ some b → b < m.list.fresh
    pub local : (t : ℕ) → Local m t (pcs t)

  -- What a step of the thread `u` leaves the others: it writes to no node whose lock it has not, and
  -- an entry stays where it is in the order.
  pub record Frame (u : ℕ) (m m' : Shared T) : Type 0 where
    pub untouched :
        (a : ℕ) → a < m.list.fresh → m.holder a ≢ some u → m'.list.heap a ≡ m.list.heap a
    pub holders : (a t : ℕ) → t ≢ u → m.holder a ≡ some t → m'.holder a ≡ some t
    pub old_entry :
        (a : ℕ) (n' : Node T)
        → a < m.list.fresh
        → m'.list.heap a ≡ some n'
        → (n : Node T) × (m.list.heap a ≡ some n) × ((k : T) → cmp n'.entry k ≡ cmp n.entry k)
    pub grows : m.list.fresh ≤ m'.list.fresh
    pub same_head : m'.list.head ≡ m.list.head

  module _ {u : ℕ} {m m' : Shared T} (f : Frame u m m') where
    pub Ahead-stable : (key : T) (pred : ℕ) → Ahead m key pred → Ahead m' key pred
    Ahead-stable key pred (lt, h) = (
      omega (arith, f.grows),
      λ p' e'.
          let (p, e, same) = f.old_entry pred p' lt e' in
          elim (h p e) [ inl q ↦ inl (q ∙ sym f.same_head) | inr q ↦ inr (same key ∙ q) ],
    )

    pub Behind-stable : (key : T) (curr : ℕ) → Behind m key curr → Behind m' key curr
    Behind-stable key curr (lt, h) = (
      omega (arith, f.grows),
      λ c' e'. let (c, e, same) = f.old_entry curr c' lt e' in same key ∙ h c e,
    )

    pub gone : (a : ℕ) → a < m.list.fresh → m.list.heap a ≡ none → m'.list.heap a ≡ none
    gone a lt e = elim (Option-cases (m'.list.heap a)) [
      | inl e' ↦ e'
      | inr (n', e') ↦
          let (n, en, same) = f.old_entry a n' lt e' in
          let not_both : ◌≡◌ {A = Option (Node T)} none (some n) = sym e ∙ en in cc
    ]

    module _ (t : ℕ) (other : t ≢ u) where
      not_mover : (a : ℕ) → m.holder a ≡ some t → m.holder a ≢ some u
      not_mover a e q = let one : some t ≡ some u = sym e ∙ q in other (cc)

      Held-stable : (a : ℕ) → Held m t a → Held m' t a
      Held-stable a (h, lt, (n, e)) =
          (f.holders a t other h, omega (arith, f.grows), (n, f.untouched a lt (not_mover a h) ∙ e))

      Passed-stable :
          (pred curr : ℕ) → Held m t pred → Held m t curr → Passed m pred curr → Passed m' pred curr
      Passed-stable pred curr (hp, lp, x) (hc, lc, y) (p, c, ep, mp, np, ec, mc) = (
        p,
        c,
        f.untouched pred lp (not_mover pred hp) ∙ ep,
        mp,
        np,
        f.untouched curr lc (not_mover curr hc) ∙ ec,
        mc,
      )

      -- A step of another thread keeps what a thread knows.
      pub Local-stable : (p : Pc T) → Local m t p → Local m' t p
      Local-stable idle l = tt
      Local-stable (entering w key) l = l
      Local-stable (walking w key pred curr) (k, a, lt) =
          (k, Ahead-stable key pred a, omega (arith, f.grows))
      Local-stable (found w key pred curr) (k, a, b) =
          (k, Ahead-stable key pred a, Behind-stable key curr b)
      Local-stable (has_pred w key pred curr) (k, a, b, h) =
          (k, Ahead-stable key pred a, Behind-stable key curr b, Held-stable pred h)
      Local-stable (has_both w key pred curr) (k, a, b, h, g, ne) = (
        k,
        Ahead-stable key pred a,
        Behind-stable key curr b,
        Held-stable pred h,
        Held-stable curr g,
        ne,
      )
      Local-stable (valid w key pred curr) (k, a, b, h, g, v) = (
        k,
        Ahead-stable key pred a,
        Behind-stable key curr b,
        Held-stable pred h,
        Held-stable curr g,
        Passed-stable pred curr h g v,
      )
      Local-stable (freeing pred curr) (h, g, ne, (c, ec, mc)) = (
        Held-stable pred h,
        Held-stable curr g,
        ne,
        (c, f.untouched curr g.1 (not_mover curr g.0) ∙ ec, mc),
      )
      Local-stable (deleted pred curr) (h, lt, e) =
          (Held-stable pred h, omega (arith, f.grows), gone curr lt e)
      Local-stable (leaving next pred curr) (k, h, g, ne) =
          (k, Held-stable pred h, Held-stable curr g, ne)
      Local-stable (leaving_pred next pred) (k, h) = (k, Held-stable pred h)
      Local-stable (returned b) l = tt
      Local-stable (looking key) l = tt
      Local-stable (reading key curr) l = tt
      Local-stable (asking key curr) l = tt
      Local-stable (got x) l = tt
      Local-stable faulted l = tt
