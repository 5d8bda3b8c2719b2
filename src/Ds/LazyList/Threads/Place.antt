-- ===== src/Ds/LazyList/Threads/Place.antt =====
-- Where two nodes that `validate` has passed stand in the list.
use libeva.Base.{
  ℕ, ◌≡◌, ◌≢◌, refl, sym, ap, ◌∙◌, inl, inr, Bool, true, false, Option, some, List, [], ◌∷◌, arith,
  Bool-cases, ◌==◌, ==_iff,
}
use libeva.Ds.Sorted.{IsOrder, IsSorted, Above}
use libeva.Ds.LazyList.{Node}
use libeva.Ds.LazyList.Chain.{
  cell, start, Chain, Apart, rest_of, pred_of, insert_node, replace_node, remove_node,
}
use libeva.Ds.LazyList.Shape.{entries}

module _ {ℓ} {T : Type ℓ} (cmp : T → T → Bool) (key : T) (h : ℕ → Option (Node T)) where
  abbrev pub Stops : ℕ → Type ℓ
  Stops curr = (c : Node T) → h curr ≡ some c → cmp c.entry key ≡ false

  -- A node that is not below the key ends the walk at once.
  pub stop_here :
      (ns : List (ℕ × T)) (q p curr : ℕ)
      → Chain h ns q
      → start ns q ≡ curr
      → Stops curr
      → (pred_of cmp key p ns ≡ p) × (rest_of cmp key ns ≡ ns)
  stop_here [] q p curr c e s = (refl, refl)
  stop_here ((a, x) ∷ r) q p curr c e s =
      let less : cmp x key ≡ false = s _ (ap h (sym e) ∙ c.0) in rw less (refl, refl)

  -- The entry of a later node is above.
  Above-node :
      (ns : List (ℕ × T)) (q pred : ℕ) (p : Node T) (x : T)
      → Chain h ns q
      → h pred ≡ some p
      → (Apart pred ns → ⊥)
      → Above cmp x (entries ns)
      → cmp x p.entry ≡ true
  Above-node [] q pred p x c e inside ab = absurd (inside tt)
  Above-node ((a, y) ∷ r) q pred p x c e inside ab = elim (Bool-cases (pred == a)) [
    | inl same ↦
        let one : some p ≡ cell y (start r q) = sym e ∙ ap h ((==_iff pred a).0 same) ∙ c.0 in
        ground (arith, one, ab.0)
    | inr other ↦
        Above-node r q pred p x c.1 e (λ away. inside ((λ q. ground (arith, q, other)), away)) ab.1
  ]

  module _ (o : IsOrder cmp) where
    -- The walk ends at a node of the chain whose successor ends it.
    pub seek :
        (ns : List (ℕ × T)) (q p0 pred curr : ℕ) (p : Node T)
        → Chain h ns q
        → IsSorted cmp (entries ns)
        → h pred ≡ some p
        → p.next ≡ some curr
        → cmp p.entry key ≡ true
        → (Apart pred ns → ⊥)
        → Stops curr
        → (pred_of cmp key p0 ns ≡ pred) × (start (rest_of cmp key ns) q ≡ curr)
    seek [] q p0 pred curr p c s e en lt inside st = absurd (inside tt)
    seek ((a, x) ∷ r) q p0 pred curr p c s e en lt inside st = elim (Bool-cases (pred == a)) [
      | inl same ↦
          let one : some p ≡ cell x (start r q) = sym e ∙ ap h ((==_iff pred a).0 same) ∙ c.0 in
          let at : start r q ≡ curr = ground (arith, one, en) in
          let more : cmp x key ≡ true = ground (arith, one, lt) in
          let (pr, re) = stop_here r q a curr c.1 at st in
          rw more (pr ∙ sym ((==_iff pred a).0 same), ap (λ ns. start ns q) re ∙ at)
      | inr other ↦
          let inside' : Apart pred r → ⊥ = λ away. inside ((λ q. ground (arith, q, other)), away) in
          let more : cmp x key ≡ true =
            o.trans x p.entry key (Above-node r q pred p x c.1 e inside' s.0) lt in
          rw more (seek r q a pred curr p c.1 s.1 e en lt inside' st)
    ]

-- The nodes of a changed list are those of the list and the new one, without what was taken out.
module _ {ℓ} {T : Type ℓ} (cmp : T → T → Bool) (key : T) (b : ℕ) where
  pub Apart-insert :
      (ns : List (ℕ × T)) (new : ℕ) → Apart b (insert_node cmp key new ns) → (b ≢ new) × Apart b ns
  Apart-insert [] new h = (h.0, tt)
  Apart-insert ((a, x) ∷ r) new h = ground (arith, Apart-insert r new)

  pub Apart-replace : (ns : List (ℕ × T)) → Apart b (replace_node cmp key ns) → Apart b ns
  Apart-replace [] h = tt
  Apart-replace ((a, x) ∷ r) h = ground (arith, Apart-replace r)

  pub Apart-remove :
      (ns : List (ℕ × T)) (c : ℕ) (y : T) (rest : List (ℕ × T))
      → rest_of cmp key ns ≡ (c, y) ∷ rest
      → b ≢ c
      → Apart b (remove_node cmp key ns)
      → Apart b ns
  Apart-remove [] c y rest e n h = tt
  Apart-remove ((a, x) ∷ r) c y rest e n h = ground (arith, Apart-remove r c y rest)
