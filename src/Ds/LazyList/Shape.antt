-- ===== src/Ds/LazyList/Shape.antt =====
-- When a heap holds a list of given entries, and where a walk over it stops.
use libeva.Base.{
  ℕ, ◌+◌, suc, ◌<◌, ◌≡◌, ◌≢◌, refl, ap, inl, inr, Bool, true, false, Option, none, some, List, [],
  ◌∷◌, arith, length, Bool-cases, ◌≤◌,
}
use libeva.Ds.Sorted.{IsOrder, IsSorted, Under}
use libeva.Ds.LazyList.{Node, LazyList, walk, validate}
use libeva.Ds.LazyList.Chain.{
  cell, start, Chain, Apart, Distinct, rest_of, pred_of, entry_of, insert_node, replace_node,
  remove_node, walk-Chain, pred-cell,
}

module _ {ℓ} {T : Type ℓ} where
  abbrev pub entries : List (ℕ × T) → List T
  entries [] = []
  entries ((a, x) ∷ r) = x ∷ entries r

  abbrev pub Below : ℕ → List (ℕ × T) → Type 0
  Below n [] = Unit
  Below n ((a, x) ∷ r) = (a < n) × Below n r

  pub length-entries : (ns : List (ℕ × T)) → length (entries ns) ≡ length ns
  length-entries [] = refl
  length-entries (n ∷ r) = ap suc (length-entries r)

  pub Below-Apart : (ns : List (ℕ × T)) (n b : ℕ) → Below n ns → n ≤ b → Apart b ns
  Below-Apart [] n b h le' = tt
  Below-Apart ((a, x) ∷ r) n b h le' = ((λ e. omega arith), Below-Apart r n b h.1 le')

  pub Below-mono : (ns : List (ℕ × T)) (n b : ℕ) → Below n ns → n ≤ b → Below b ns
  Below-mono [] n b h le' = tt
  Below-mono ((a, x) ∷ r) n b h le' = (omega arith, Below-mono r n b h.1 le')

  abbrev pub end_node : T → Node T
  end_node max_val = record { entry = max_val; next = none; marked = false }

  -- The heap holds the nodes `ns` between the sentinels, sorted and below the largest value.
  pub record IsList (cmp : T → T → Bool) (default max_val : T) (l : LazyList T) (ns : List (ℕ × T))
      : Type ℓ where
    pub head_cell : l.heap l.head ≡ cell default (start ns l.tail)
    pub tail_cell : l.heap l.tail ≡ some (end_node max_val)
    pub chain : Chain l.heap ns l.tail
    pub distinct : Distinct ns
    pub head_apart : Apart l.head ns
    pub tail_apart : Apart l.tail ns
    pub head_ne_tail : l.head ≢ l.tail
    pub below : Below l.fresh ns
    pub head_below : l.head < l.fresh
    pub tail_below : l.tail < l.fresh
    pub count : length ns + 2 ≤ l.fresh
    pub sorted : IsSorted cmp (entries ns)
    pub under : Under cmp max_val (entries ns)

  -- The list holds the entries `xs`, in this order.
  abbrev pub Holds : (T → T → Bool) → T → T → LazyList T → List T → Type ℓ
  Holds cmp default max_val l xs =
      (ns : List (ℕ × T)) × IsList cmp default max_val l ns × (entries ns ≡ xs)

  pub IsList-Holds :
      {cmp : T → T → Bool} {default max_val : T} {l : LazyList T} {ns : List (ℕ × T)} {xs : List T}
      → IsList cmp default max_val l ns × (entries ns ≡ xs)
      → Holds cmp default max_val l xs
  IsList-Holds {ns = ns} (v, e) = (ns, v, e)

module _ {ℓ} {T : Type ℓ} (cmp : T → T → Bool) (key : T) where
  pub Chain-rest :
      (h : ℕ → Option (Node T)) (ns : List (ℕ × T)) (q : ℕ)
      → Chain h ns q
      → Chain h (rest_of cmp key ns) q
  Chain-rest h [] q c = tt
  Chain-rest h ((a, x) ∷ r) q c = elim (Bool-cases (cmp x key)) [
    | inl more ↦ rw more (Chain-rest h r q c.1)
    | inr less ↦ rw less c
  ]

  pub insert-Below :
      (ns : List (ℕ × T)) (n new : ℕ) → new < n → Below n ns → Below n (insert_node cmp key new ns)
  insert-Below [] n new h b = (h, tt)
  insert-Below ((a, x) ∷ r) n new h b = ground (arith, insert-Below r n new h b.1)

  pub replace-Below : (ns : List (ℕ × T)) (n : ℕ) → Below n ns → Below n (replace_node cmp key ns)
  replace-Below [] n b = tt
  replace-Below ((a, x) ∷ r) n b = ground (arith, replace-Below r n b.1)

  pub length-insert_node :
      (ns : List (ℕ × T)) (new : ℕ) → length (insert_node cmp key new ns) ≡ suc (length ns)
  length-insert_node [] new = refl
  length-insert_node ((a, x) ∷ r) new = ground (arith, length-insert_node r new)

  pub length-replace_node : (ns : List (ℕ × T)) → length (replace_node cmp key ns) ≡ length ns
  length-replace_node [] = refl
  length-replace_node ((a, x) ∷ r) = ground (arith, length-replace_node r)

  pub length-remove_node : (ns : List (ℕ × T)) → length (remove_node cmp key ns) ≤ length ns
  length-remove_node [] = omega arith
  length-remove_node ((a, x) ∷ r) = ground (arith, length-remove_node r)

  pub remove-Below : (ns : List (ℕ × T)) (n : ℕ) → Below n ns → Below n (remove_node cmp key ns)
  remove-Below [] n b = tt
  remove-Below ((a, x) ∷ r) n b = ground (arith, remove-Below r n b.1)

  -- The entry where the walk stops is not below the key.
  pub rest-head :
      (ns : List (ℕ × T)) (c : ℕ) (y : T) (rest : List (ℕ × T))
      → rest_of cmp key ns ≡ (c, y) ∷ rest
      → cmp y key ≡ false
  rest-head [] c y rest e = cc
  rest-head ((a, x) ∷ r) c y rest e = ground (arith, rest-head r c y rest)

pub not_above {ℓ} :
    {T : Type ℓ} {cmp : T → T → Bool} (o : IsOrder cmp) (key max_val : T)
    → cmp key max_val ≡ true
    → cmp max_val key ≡ false
not_above o key max_val h = ground (arith, o.trans key max_val key h, o.irrefl key)

module _ {ℓ} {T : Type ℓ} {cmp : T → T → Bool} {default max_val : T} (o : IsOrder cmp) where
  module _ (key : T) (l : LazyList T) (ns : List (ℕ × T))
      (v : IsList cmp default max_val l ns) where
    abbrev pub curr_of : ℕ
    curr_of = start (rest_of cmp key ns) l.tail

    -- The walk from the first node stops at the first entry that is not below the key.
    pub locate :
        (fuel : ℕ)
        → cmp key max_val ≡ true
        → length ns < fuel
        → walk cmp fuel l.heap key l.head (start ns l.tail)
          ≡ some (pred_of cmp key l.head ns, curr_of)
    locate fuel h lt =
        walk-Chain cmp key l.heap ns l.tail l.head fuel (end_node max_val) v.chain v.tail_cell
          (not_above o key max_val h) lt

    pub at_pred : l.heap (pred_of cmp key l.head ns) ≡ cell (entry_of cmp key default ns) curr_of
    at_pred = pred-cell cmp key l.heap ns l.tail l.head default v.chain v.head_cell

    -- `validate` passes on what an undisturbed walk found.
    pub validate-locate :
        (c : Node T)
        → l.heap curr_of ≡ some c
        → c.marked ≡ false
        → validate l (pred_of cmp key l.head ns) curr_of ≡ some true
    unfolding validate
    validate-locate c e m = rw (at_pred, e) (ground arith)
