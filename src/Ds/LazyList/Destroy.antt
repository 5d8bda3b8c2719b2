-- ===== src/Ds/LazyList/Destroy.antt =====
-- What the destructor of ds/LazyList/LazyList.h frees.
use libeva.Base.{
  ℕ, zero, suc, ◌<◌, ◌≡◌, ◌≢◌, refl, sym, ◌∙◌, Bool, Option, none, some, List, [], ◌∷◌, arith,
  length,
}
use libeva.Ds.LazyList.{Node, LazyList, store, free_nodes, destroy}
use libeva.Ds.LazyList.Chain.{start, Chain, Apart, Distinct, Chain-store}
use libeva.Ds.LazyList.Shape.{IsList, end_node}

module _ {T : Type 0} where
  -- No node is left at these addresses.
  abbrev pub AllFreed : (ℕ → Option (Node T)) → List (ℕ × T) → Type 0
  AllFreed h [] = Unit
  AllFreed h ((a, x) ∷ r) = (h a ≡ none) × AllFreed h r

  free_row :
      (ns : List (ℕ × T)) (fuel : ℕ) (h : ℕ → Option (Node T)) (q : ℕ)
      → Chain h ns q
      → Distinct ns
      → Apart q ns
      → length ns < fuel
      → (h' : ℕ → Option (Node T)) × (free_nodes fuel h q (some (start ns q)) ≡ some h')
        × AllFreed h' ns
        × ((b : ℕ) → Apart b ns → h' b ≡ h b)
  unfolding free_nodes
  free_row ns zero h q c d far lt = absurd (omega arith)
  free_row [] (suc fuel) h q c d far lt = (h, ground arith, tt, λ b ap'. refl)
  free_row ((a, x) ∷ r) (suc fuel) h q c d far lt =
      let (h', e, all, same) =
        free_row r fuel (store h a none) q (Chain-store h r q a none d.0 c.1) d.1 far.1
          (omega arith) in
      (
        h',
        rw c.0 (ground (arith, e, far.0)),
        (same a d.0 ∙ ground arith, all),
        λ b ap'. same b ap'.1 ∙ ground (arith, ap'.0),
      )

  -- The destructor of a list returns within two rounds more than there are entries. It frees the
  -- head and the node of every entry, none of them twice, and leaves all other nodes, so that the
  -- node of the tail is not freed.
  pub destroy-AllFreed :
      (cmp : T → T → Bool) (default max_val : T) (l : LazyList T) (ns : List (ℕ × T)) (fuel : ℕ)
      → IsList cmp default max_val l ns
      → suc (length ns) < fuel
      → (h' : ℕ → Option (Node T)) × (destroy fuel l ≡ some h')
        × (h' l.head ≡ none)
        × AllFreed h' ns
        × (h' l.tail ≡ some (end_node max_val))
        × ((b : ℕ) → b ≢ l.head → Apart b ns → h' b ≡ l.heap b)
  unfolding destroy
  destroy-AllFreed cmp default max_val l ns fuel v lt =
      let (h', e, (at_head, all), same) =
        free_row ((l.head, default) ∷ ns) fuel l.heap l.tail (v.head_cell, v.chain)
          (v.head_apart, v.distinct) ((λ q. v.head_ne_tail (sym q)), v.tail_apart) lt in
      (
        h',
        e,
        at_head,
        all,
        same l.tail ((λ q. v.head_ne_tail (sym q)), v.tail_apart) ∙ v.tail_cell,
        λ b ne ap'. same b (ne, ap'),
      )
