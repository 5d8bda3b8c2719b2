-- ===== src/Ds/LazyList/Chain.antt =====
-- The nodes of a list between its sentinels, as pairs of an address and an entry, and what the
-- writes of `add` and `remove` make of them.
use libeva.Base.{
  ℕ, zero, suc, ◌<◌, ◌≡◌, ◌≢◌, refl, subst, inl, inr, Bool, false, Option, none, some, List, [],
  ◌∷◌, arith, length, Bool-cases, if◌then◌else◌,
}
use libeva.Ds.LazyList.{Node, store, walk}

module _ {ℓ} {T : Type ℓ} where
  abbrev pub cell : T → ℕ → Option (Node T)
  cell x a = some (record { entry = x; next = some a; marked = false })

  -- The address of the first node, or of the sentinel behind the nodes.
  abbrev pub start : List (ℕ × T) → ℕ → ℕ
  start [] q = q
  start ((a, x) ∷ r) q = a

  -- Unmarked nodes, each linked to the next, the last to `q`.
  abbrev pub Chain : (ℕ → Option (Node T)) → List (ℕ × T) → ℕ → Type ℓ
  Chain h [] q = Unit
  Chain h ((a, x) ∷ r) q = (h a ≡ cell x (start r q)) × Chain h r q

  -- No node stands at `b`.
  abbrev pub Apart : ℕ → List (ℕ × T) → Type 0
  Apart b [] = Unit
  Apart b ((a, x) ∷ r) = (b ≢ a) × Apart b r

  abbrev pub Distinct : List (ℕ × T) → Type 0
  Distinct [] = Unit
  Distinct ((a, x) ∷ r) = Apart a r × Distinct r

  pub Chain-store :
      (h : ℕ → Option (Node T)) (ns : List (ℕ × T)) (q b : ℕ) (n : Option (Node T))
      → Apart b ns
      → Chain h ns q
      → Chain (store h b n) ns q
  Chain-store h [] q b n ap' c = tt
  Chain-store h ((a, x) ∷ r) q b n ap' c = (ground (arith, ap'.0), Chain-store h r q b n ap'.1 c.1)

module _ {ℓ} {T : Type ℓ} (cmp : T → T → Bool) (key : T) where
  -- Where the walk stops: the nodes from there on, and the address and entry before them.
  abbrev pub rest_of : List (ℕ × T) → List (ℕ × T)
  rest_of [] = []
  rest_of ((a, x) ∷ r) = if cmp x key then rest_of r else (a, x) ∷ r

  abbrev pub pred_of : ℕ → List (ℕ × T) → ℕ
  pred_of p [] = p
  pred_of p ((a, x) ∷ r) = if cmp x key then pred_of a r else p

  abbrev pub entry_of : T → List (ℕ × T) → T
  entry_of px [] = px
  entry_of px ((a, x) ∷ r) = if cmp x key then entry_of x r else px

  abbrev pub insert_node : ℕ → List (ℕ × T) → List (ℕ × T)
  insert_node new [] = (new, key) ∷ []
  insert_node new ((a, x) ∷ r) =
      if cmp x key then (a, x) ∷ insert_node new r else (new, key) ∷ (a, x) ∷ r

  abbrev pub replace_node : List (ℕ × T) → List (ℕ × T)
  replace_node [] = []
  replace_node ((a, x) ∷ r) = if cmp x key then (a, x) ∷ replace_node r else (a, key) ∷ r

  abbrev pub remove_node : List (ℕ × T) → List (ℕ × T)
  remove_node [] = []
  remove_node ((a, x) ∷ r) = if cmp x key then (a, x) ∷ remove_node r else r

  -- The walk ends with fuel to spare, and finds the place.
  pub walk-Chain :
      (h : ℕ → Option (Node T)) (ns : List (ℕ × T)) (q p fuel : ℕ) (end : Node T)
      → Chain h ns q
      → h q ≡ some end
      → cmp end.entry key ≡ false
      → length ns < fuel
      → walk cmp fuel h key p (start ns q) ≡ some (pred_of p ns, start (rest_of ns) q)
  unfolding walk
  walk-Chain h ns q p zero end c e less lt = absurd (omega arith)
  walk-Chain h [] q p (suc f) end c e less lt = rw e (rw less refl)
  walk-Chain h ((a, x) ∷ r) q p (suc f) end c e less lt = elim (Bool-cases (cmp x key)) [
    | inl more ↦ rw (c.0, more) (walk-Chain h r q a f end c.1 e less (omega arith))
    | inr stop ↦ rw (c.0, stop) refl
  ]

  pub pred-cell :
      (h : ℕ → Option (Node T)) (ns : List (ℕ × T)) (q p : ℕ) (px : T)
      → Chain h ns q
      → h p ≡ cell px (start ns q)
      → h (pred_of p ns) ≡ cell (entry_of px ns) (start (rest_of ns) q)
  pred-cell h [] q p px c e = e
  pred-cell h ((a, x) ∷ r) q p px c e = ground (arith, pred-cell h r q a x c.1 c.0)

  pub pred-Apart : (ns : List (ℕ × T)) (b p : ℕ) → b ≢ p → Apart b ns → b ≢ pred_of p ns
  pred-Apart [] b p n ap' = n
  pred-Apart ((a, x) ∷ r) b p n ap' = ground (arith, pred-Apart r b a ap'.0 ap'.1)

  -- `link_new` inserts the node.
  pub insert-Chain :
      (h : ℕ → Option (Node T)) (ns : List (ℕ × T)) (q p new : ℕ) (px : T)
      → Chain h ns q
      → h p ≡ cell px (start ns q)
      → Apart p ns
      → Distinct ns
      → new ≢ p
      → Apart new ns
      → let h' =
          store
            (store h new (cell key (start (rest_of ns) q)))
            (pred_of p ns)
            (cell (entry_of px ns) new) in
        (h' p ≡ cell px (start (insert_node new ns) q)) × Chain h' (insert_node new ns) q
  insert-Chain h [] q p new px c e ap' d n an = (ground arith, (ground arith, tt))
  insert-Chain h ((a, x) ∷ r) q p new px c e ap' d n an = elim (Bool-cases (cmp x key)) [
    | inl more ↦ rw more (
      ground (arith, pred-Apart r p a ap'.0 ap'.1),
      insert-Chain h r q a new x c.1 c.0 d.0 d.1 an.0 an.1,
    )
    | inr less ↦ rw less (
      ground arith,
      (
        ground arith,
        (
          ground (arith, c.0, ap'.0, an.0),
          Chain-store _ r q p _ ap'.1 (Chain-store h r q new _ an.1 c.1),
        ),
      ),
    )
  ]

  -- Nodes behind an apart address are apart from it too.
  pub rest-Apart : (ns : List (ℕ × T)) (b : ℕ) → Apart b ns → Apart b (rest_of ns)
  rest-Apart [] b h = tt
  rest-Apart ((a, x) ∷ r) b h = elim (Bool-cases (cmp x key)) [
    | inl more ↦ rw more (rest-Apart r b h.1)
    | inr less ↦ rw less h
  ]

  -- `overwrite` replaces the entry of the node where the walk stopped.
  pub replace-Chain :
      (h : ℕ → Option (Node T)) (ns : List (ℕ × T)) (q c : ℕ) (y : T) (rest : List (ℕ × T))
      → Chain h ns q
      → Distinct ns
      → rest_of ns ≡ (c, y) ∷ rest
      → Chain (store h c (cell key (start rest q))) (replace_node ns) q
        × (start (replace_node ns) q ≡ start ns q)
  replace-Chain h [] q c y rest ch d e = cc
  replace-Chain h ((a, x) ∷ r) q c y rest ch d e = elim (Bool-cases (cmp x key)) [
    | inl more ↦
        let e' : rest_of r ≡ (c, y) ∷ rest = ground arith in
        let far : Apart a ((c, y) ∷ rest) = subst (Apart a) e' (rest-Apart r a d.0) in
        let ih = replace-Chain h r q c y rest ch.1 d.1 e' in
        rw more ((ground (arith, far.0, ch.0, ih.1), ih.0), refl)
    | inr less ↦
        let ec : c ≡ a = ground arith in
        let er : rest ≡ r = ground arith in
        rw less ((ground (arith, er), Chain-store h r q c _ (rw ec d.0) ch.1), refl)
  ]

  -- `unlink` takes the node out where the walk stopped.
  pub remove-Chain :
      (h : ℕ → Option (Node T)) (ns : List (ℕ × T)) (q p c : ℕ) (px y : T) (rest : List (ℕ × T))
      → Chain h ns q
      → h p ≡ cell px (start ns q)
      → Apart p ns
      → Distinct ns
      → rest_of ns ≡ (c, y) ∷ rest
      → let h' = store (store h (pred_of p ns) (cell (entry_of px ns) (start rest q))) c none in
        (h' p ≡ cell px (start (remove_node ns) q)) × Chain h' (remove_node ns) q
  remove-Chain h [] q p c px y rest ch e ap' d er = absurd (cc)
  remove-Chain h ((a, x) ∷ r) q p c px y rest ch e ap' d er = elim (Bool-cases (cmp x key)) [
    | inl more ↦
        let er' : rest_of r ≡ (c, y) ∷ rest = ground arith in
        let far : Apart p ((c, y) ∷ rest) = subst (Apart p) er' (rest-Apart r p ap'.1) in
        rw more (
          ground (arith, far.0, pred-Apart r p a ap'.0 ap'.1),
          remove-Chain h r q a c x y rest ch.1 ch.0 d.0 d.1 er',
        )
    | inr less ↦
        let ec : c ≡ a = ground arith in
        let er' : rest ≡ r = ground arith in
        rw (less, ec, er')
          (ground (arith, ap'.0), Chain-store _ r q a none d.0 (Chain-store h r q p _ ap'.1 ch.1))
  ]

  module _ (b : ℕ) where
    pub insert-Apart :
        (ns : List (ℕ × T)) (new : ℕ) → b ≢ new → Apart b ns → Apart b (insert_node new ns)
    insert-Apart [] new n h = (n, tt)
    insert-Apart ((a, x) ∷ r) new n h = ground (arith, insert-Apart r new n h.1)

    pub replace-Apart : (ns : List (ℕ × T)) → Apart b ns → Apart b (replace_node ns)
    replace-Apart [] h = tt
    replace-Apart ((a, x) ∷ r) h = ground (arith, replace-Apart r h.1)

    pub remove-Apart : (ns : List (ℕ × T)) → Apart b ns → Apart b (remove_node ns)
    remove-Apart [] h = tt
    remove-Apart ((a, x) ∷ r) h = ground (arith, remove-Apart r h.1)

  pub insert-Distinct :
      (ns : List (ℕ × T)) (new : ℕ) → Apart new ns → Distinct ns → Distinct (insert_node new ns)
  insert-Distinct [] new n h = (tt, tt)
  insert-Distinct ((a, x) ∷ r) new n h =
      ground (arith, insert-Distinct r new n.1 h.1, insert-Apart a r new)

  pub replace-Distinct : (ns : List (ℕ × T)) → Distinct ns → Distinct (replace_node ns)
  replace-Distinct [] h = tt
  replace-Distinct ((a, x) ∷ r) h = ground (arith, replace-Distinct r h.1, replace-Apart a r)

  pub remove-Distinct : (ns : List (ℕ × T)) → Distinct ns → Distinct (remove_node ns)
  remove-Distinct [] h = tt
  remove-Distinct ((a, x) ∷ r) h = ground (arith, remove-Distinct r h.1, remove-Apart a r)
