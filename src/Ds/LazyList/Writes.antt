-- ===== src/Ds/LazyList/Writes.antt =====
-- The writes of the list, made where an undisturbed walk stops: the heap then holds the changed list.
use libeva.Base.{
  ℕ, suc, ◌≡◌, ◌≢◌, refl, sym, ap, subst, inl, inr, Bool, true, false, Option, none, some, List, [],
  ◌∷◌, arith, Bool-cases,
}
use libeva.Ds.Sorted.{
  IsOrder, IsSorted, Under, insert, delete, find, insert-IsSorted, insert-Under, find-Above,
  Above-mono, delete-IsSorted, delete-Under,
}
use libeva.Ds.LazyList.{Node, LazyList, store, overwrite, link_new, unlink, mark_unlink, free_node}
use libeva.Ds.LazyList.Chain.{
  cell, start, Chain, Apart, rest_of, pred_of, entry_of, pred-Apart, rest-Apart, insert_node,
  replace_node, remove_node, insert-Chain, replace-Chain, remove-Chain, insert-Distinct,
  replace-Distinct, remove-Distinct, insert-Apart, replace-Apart, remove-Apart,
}
use libeva.Ds.LazyList.Shape.{
  entries, Below-Apart, Below-mono, insert-Below, replace-Below, remove-Below, length-insert_node,
  length-replace_node, length-remove_node, IsList, Chain-rest, rest-head, curr_of,
}

module _ {ℓ} {T : Type ℓ} (cmp : T → T → Bool) (key : T) where
  -- The nodes change as the entries of the specification do.
  entries-insert :
      (ns : List (ℕ × T)) (new : ℕ)
      → ((c : ℕ) (y : T) (rest : List (ℕ × T))
          → rest_of cmp key ns ≡ (c, y) ∷ rest
          → cmp key y ≡ true)
      → entries (insert_node cmp key new ns) ≡ insert cmp key (entries ns)
  unfolding insert
  entries-insert [] new h = refl
  entries-insert ((a, x) ∷ r) new h = elim (Bool-cases (cmp x key)) [
    | inl more ↦ rw more (ap (◌∷◌ x) (entries-insert r new (λ c y rest e. h c y rest (rw more e))))
    | inr less ↦ rw (less, h a x r (rw less refl)) refl
  ]

  entries-replace :
      (ns : List (ℕ × T)) (c : ℕ) (y : T) (rest : List (ℕ × T))
      → rest_of cmp key ns ≡ (c, y) ∷ rest
      → cmp key y ≡ false
      → entries (replace_node cmp key ns) ≡ insert cmp key (entries ns)
  unfolding insert
  entries-replace [] c y rest e h = cc
  entries-replace ((a, x) ∷ r) c y rest e h = ground (arith, entries-replace r c y rest)

  entries-remove :
      (ns : List (ℕ × T)) (c : ℕ) (y : T) (rest : List (ℕ × T))
      → rest_of cmp key ns ≡ (c, y) ∷ rest
      → cmp key y ≡ false
      → entries (remove_node cmp key ns) ≡ delete cmp key (entries ns)
  unfolding delete
  entries-remove [] c y rest e h = cc
  entries-remove ((a, x) ∷ r) c y rest e h = ground (arith, entries-remove r c y rest)

  pub entries-keep :
      (ns : List (ℕ × T))
      → ((c : ℕ) (y : T) (rest : List (ℕ × T))
          → rest_of cmp key ns ≡ (c, y) ∷ rest
          → cmp key y ≡ true)
      → delete cmp key (entries ns) ≡ entries ns
  unfolding delete
  entries-keep [] h = refl
  entries-keep ((a, x) ∷ r) h = elim (Bool-cases (cmp x key)) [
    | inl more ↦ rw more (ap (◌∷◌ x) (entries-keep r (λ c y rest e. h c y rest (rw more e))))
    | inr less ↦ rw (less, h a x r (rw less refl)) refl
  ]

  -- A lookup reads the entry where the walk stops.
  pub find-rest :
      (ns : List (ℕ × T)) (c : ℕ) (y : T) (rest : List (ℕ × T))
      → rest_of cmp key ns ≡ (c, y) ∷ rest
      → cmp key y ≡ false
      → find cmp key (entries ns) ≡ some y
  unfolding find
  find-rest [] c y rest e h = cc
  find-rest ((a, x) ∷ r) c y rest e h = ground (arith, find-rest r c y rest)

pub find-miss {ℓ} :
    {T : Type ℓ} (cmp : T → T → Bool) (o : IsOrder cmp) (key : T) (ns : List (ℕ × T))
    → IsSorted cmp (entries ns)
    → ((c : ℕ) (y : T) (rest : List (ℕ × T))
        → rest_of cmp key ns ≡ (c, y) ∷ rest
        → cmp key y ≡ true)
    → find cmp key (entries ns) ≡ none
unfolding find
find-miss cmp o key [] s h = refl
find-miss cmp o key ((a, x) ∷ r) s h = elim (Bool-cases (cmp x key)) [
  | inl more ↦
      let ih = find-miss cmp o key r s.1 (λ c y rest e. h c y rest (rw more e)) in rw more ih
  | inr less ↦
      let up = h a x r (rw less refl) in
      let all = find-Above cmp o key (entries r) (Above-mono cmp o key x (entries r) up s.0) in
      rw (less, up) all
]

module _ {ℓ} {T : Type ℓ} where
  -- What `unlink` leaves, as writes to two nodes.
  abbrev pub without_node : LazyList T → ℕ → Node T → ℕ → Node T → LazyList T
  without_node l pred p curr c = record l {
    heap = store (store l.heap pred (some (record p { next = c.next }))) curr none;
  }

  store_twice :
      (h : ℕ → Option (Node T)) (a : ℕ) (x y : Option (Node T)) (b : ℕ)
      → store (store h a x) a y b ≡ store h a y b
  store_twice h a x y b = ground arith

  pub unlink-without_node :
      (l : LazyList T) (pred : ℕ) (p : Node T) (curr : ℕ) (c : Node T)
      → unlink l pred p curr c ≡ without_node l pred p curr c
  unfolding unlink mark_unlink free_node
  unlink-without_node l pred p curr c i = record l {
    heap = λ b.
        store_twice (store l.heap pred (some (record p { next = c.next }))) curr
          (some (record c { marked = true })) none b i;
  }

module _ {ℓ} {T : Type ℓ} {cmp : T → T → Bool} {default max_val : T} (o : IsOrder cmp) where
  module _ (key : T) (l : LazyList T) (ns : List (ℕ × T))
      (v : IsList cmp default max_val l ns) where
    -- What stands where the walk stops: the largest value, a greater entry, or an equal one.
    pub data Stop : Type ℓ where
      at_end : rest_of cmp key ns ≡ [] → Stop
      at_node :
          (c : ℕ) (y : T) (rest : List (ℕ × T))
          → rest_of cmp key ns ≡ (c, y) ∷ rest
          → cmp y key ≡ false
          → l.heap c ≡ cell y (start rest l.tail)
          → Stop

    pub stop : Stop
    stop = split (rest_of cmp key ns) refl (Chain-rest cmp key l.heap ns l.tail v.chain)
      where
        split : (r : List (ℕ × T)) → rest_of cmp key ns ≡ r → Chain l.heap r l.tail → Stop
        split [] e c = at_end e
        split ((c, y) ∷ rest) e ch = at_node c y rest e (rest-head cmp key ns c y rest e) ch.0

    tail_ne_pred : l.tail ≢ pred_of cmp key l.head ns
    tail_ne_pred = pred-Apart cmp key ns l.tail l.head (λ e. v.head_ne_tail (sym e)) v.tail_apart

    fresh-Apart : Apart l.fresh ns
    fresh-Apart = Below-Apart ns l.fresh l.fresh v.below (omega arith)

    abbrev pub pred_node : Node T
    pred_node = record {
      entry = entry_of cmp key default ns;
      next = some (curr_of o key l ns v);
      marked = false;
    }

    pub inserted :
        ((c : ℕ) (y : T) (rest : List (ℕ × T))
          → rest_of cmp key ns ≡ (c, y) ∷ rest
          → cmp key y ≡ true)
        → cmp key max_val ≡ true
        → IsList cmp default max_val
            (link_new l key (pred_of cmp key l.head ns) pred_node (curr_of o key l ns v))
            (insert_node cmp key l.fresh ns)
          × (entries (insert_node cmp key l.fresh ns) ≡ insert cmp key (entries ns))
    unfolding link_new
    inserted h fits =
        let e = entries-insert cmp key ns l.fresh h in
        let p =
          insert-Chain cmp key l.heap ns l.tail l.head l.fresh default v.chain v.head_cell
            v.head_apart v.distinct (omega (arith, v)) fresh-Apart in
        (
          record {
            head_cell = p.0;
            tail_cell = ground (arith, tail_ne_pred, v);
            chain = p.1;
            distinct = insert-Distinct cmp key ns l.fresh fresh-Apart v.distinct;
            head_apart = insert-Apart cmp key l.head ns l.fresh (omega (arith, v)) v.head_apart;
            tail_apart = insert-Apart cmp key l.tail ns l.fresh (omega (arith, v)) v.tail_apart;
            head_ne_tail = v.head_ne_tail;
            below =
                insert-Below cmp key ns (suc l.fresh) l.fresh (omega arith)
                  (Below-mono ns l.fresh (suc l.fresh) v.below (omega arith));
            head_below = omega (arith, v);
            tail_below = omega (arith, v);
            count = omega (arith, v, length-insert_node cmp key ns l.fresh);
            sorted = subst (IsSorted cmp) (sym e) (insert-IsSorted cmp o key (entries ns) v.sorted);
            under =
                subst (Under cmp max_val) (sym e)
                  (insert-Under cmp max_val key (entries ns) fits v.under);
          },
          e,
        )

    module _ (c : ℕ) (y : T) (rest : List (ℕ × T)) (at : rest_of cmp key ns ≡ (c, y) ∷ rest) where
      Apart-at : (b : ℕ) → Apart b ns → b ≢ c
      Apart-at b h = (subst (Apart b) at (rest-Apart cmp key ns b h)).0

      abbrev pub curr_node : Node T
      curr_node = record { entry = y; next = some (start rest l.tail); marked = false }

      pub overwritten :
          cmp key y ≡ false
          → cmp key max_val ≡ true
          → IsList cmp default max_val (overwrite l key c curr_node) (replace_node cmp key ns)
            × (entries (replace_node cmp key ns) ≡ insert cmp key (entries ns))
      unfolding overwrite
      overwritten same' fits =
          let e = entries-replace cmp key ns c y rest at same' in
          let p = replace-Chain cmp key l.heap ns l.tail c y rest v.chain v.distinct at in
          (
            record {
              head_cell = ground (arith, Apart-at l.head v.head_apart, v.head_cell, p.1);
              tail_cell = ground (arith, Apart-at l.tail v.tail_apart, v.tail_cell);
              chain = p.0;
              distinct = replace-Distinct cmp key ns v.distinct;
              head_apart = replace-Apart cmp key l.head ns v.head_apart;
              tail_apart = replace-Apart cmp key l.tail ns v.tail_apart;
              head_ne_tail = v.head_ne_tail;
              below = replace-Below cmp key ns l.fresh v.below;
              head_below = v.head_below;
              tail_below = v.tail_below;
              count = omega (arith, v, length-replace_node cmp key ns);
              sorted =
                  subst (IsSorted cmp) (sym e) (insert-IsSorted cmp o key (entries ns) v.sorted);
              under =
                  subst (Under cmp max_val) (sym e)
                    (insert-Under cmp max_val key (entries ns) fits v.under);
            },
            e,
          )

      pub unlinked :
          cmp key y ≡ false
          → IsList cmp default max_val
              (without_node l (pred_of cmp key l.head ns) pred_node c curr_node)
              (remove_node cmp key ns)
            × (entries (remove_node cmp key ns) ≡ delete cmp key (entries ns))
      unlinked same' =
          let e = entries-remove cmp key ns c y rest at same' in
          let p =
            remove-Chain cmp key l.heap ns l.tail l.head c default y rest v.chain v.head_cell
              v.head_apart v.distinct at in
          (
            record {
              head_cell = p.0;
              tail_cell = ground (arith, tail_ne_pred, Apart-at l.tail v.tail_apart, v.tail_cell);
              chain = p.1;
              distinct = remove-Distinct cmp key ns v.distinct;
              head_apart = remove-Apart cmp key l.head ns v.head_apart;
              tail_apart = remove-Apart cmp key l.tail ns v.tail_apart;
              head_ne_tail = v.head_ne_tail;
              below = remove-Below cmp key ns l.fresh v.below;
              head_below = v.head_below;
              tail_below = v.tail_below;
              count = omega (arith, v, length-remove_node cmp key ns);
              sorted = subst (IsSorted cmp) (sym e) (delete-IsSorted cmp key (entries ns) v.sorted);
              under =
                  subst (Under cmp max_val) (sym e)
                    (delete-Under cmp max_val key (entries ns) v.under);
            },
            e,
          )
