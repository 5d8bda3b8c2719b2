-- ===== src/Ds/LazyList/Faults.antt =====
-- The sentinels: the empty list, `contains`, and keys past the largest value.
use libeva.Base.{
  ℕ, zero, suc, ◌<◌, ◌≡◌, refl, ap, subst, Bool, true, false, none, some, List, [], ◌∷◌, arith,
  length, Option,
}
use libeva.Ds.Sorted.{IsOrder, Under, find}
use libeva.Ds.LazyList.{Node, LazyList, init, walk, equal, add, remove, contains, get}
use libeva.Ds.LazyList.Chain.{start, Chain}
use libeva.Ds.LazyList.Shape.{IsList, entries, length-entries, end_node, Holds, locate}
use libeva.Ds.LazyList.Refine.{is_found, at_curr}

module _ {ℓ} {T : Type ℓ} (cmp : T → T → Bool) where
  -- The rounds of `while ( cmp_( curr->key(), key ) ) curr = curr->next_;` lead from one node to
  -- another.
  pub data Comes (h : ℕ → Option (Node T)) (key : T) : ℕ → ℕ → Type ℓ where
    there : {a : ℕ} → Comes h key a a
    round :
        {a b c : ℕ} (n : Node T)
        → h a ≡ some n
        → cmp n.entry key ≡ true
        → n.next ≡ some b
        → Comes h key b c
        → Comes h key a c

  -- From the first node the rounds come to one whose entry is below the key and whose link is null,
  -- and the next round reads through it.
  pub record NullRead (l : LazyList T) (key : T) : Type ℓ where
    pub head_node : Node T
    pub at_head : l.heap l.head ≡ some head_node
    pub first : ℕ
    pub from_head : head_node.next ≡ some first
    pub last : ℕ
    pub comes : Comes l.heap key first last
    pub last_node : Node T
    pub at_last : l.heap last ≡ some last_node
    pub below : cmp last_node.entry key ≡ true
    pub null_link : last_node.next ≡ none

module _ {ℓ} {T : Type ℓ} {cmp : T → T → Bool} (o : IsOrder cmp) (max_val key : T)
    (past : cmp max_val key ≡ true) where
  walk_off :
      (h : ℕ → Option (Node T)) (ns : List (ℕ × T)) (q p fuel : ℕ)
      → Chain h ns q
      → h q ≡ some (end_node max_val)
      → Under cmp max_val (entries ns)
      → walk cmp fuel h key p (start ns q) ≡ none
  unfolding walk
  walk_off h ns q p zero c e u = refl
  walk_off h [] q p (suc f) c e u = ground arith
  walk_off h ((a, x) ∷ r) q p (suc f) c e u =
      ground (arith, walk_off h r q a f c.1 e u.1, o.trans x max_val key u.0 past)

  walk-Comes :
      (h : ℕ → Option (Node T)) (ns : List (ℕ × T)) (q : ℕ)
      → Chain h ns q
      → Under cmp max_val (entries ns)
      → Comes cmp h key (start ns q) q
  walk-Comes h [] q c u = there
  walk-Comes h ((a, x) ∷ r) q c u =
      round _ c.0 (o.trans x max_val key u.0 past) refl (walk-Comes h r q c.1 u.1)

module _ {ℓ} {T : Type ℓ} {cmp : T → T → Bool} {default max_val : T} where
  pub init-IsList : IsList cmp default max_val (init default max_val) []
  unfolding init
  init-IsList = record {
    head_cell = refl;
    tail_cell = refl;
    chain = tt;
    distinct = tt;
    head_apart = tt;
    tail_apart = tt;
    head_ne_tail = omega arith;
    below = tt;
    head_below = omega arith;
    tail_below = omega arith;
    count = omega arith;
    sorted = tt;
    under = tt;
  }

  -- A new list is empty.
  pub init-Holds : Holds cmp default max_val (init default max_val) []
  init-Holds = ([], init-IsList, refl)

  module _ (o : IsOrder cmp) (key : T) (past : cmp max_val key ≡ true) where
    pub past_max-NullRead :
        (l : LazyList T) (xs : List T) → Holds cmp default max_val l xs → NullRead cmp l key
    past_max-NullRead l xs (ns, v, e) = record {
      head_node = record { entry = default; next = some (start ns l.tail); marked = false };
      at_head = v.head_cell;
      first = start ns l.tail;
      from_head = refl;
      last = l.tail;
      comes = walk-Comes o max_val key past l.heap ns l.tail v.chain v.under;
      last_node = end_node max_val;
      at_last = v.tail_cell;
      below = past;
      null_link = refl;
    }

    -- add, remove and get of a key greater than the largest value run past the last node of a list
    -- and read through its null link, whatever the list holds and however long the loop runs.
    pub past_max_faults :
        (l : LazyList T) (xs : List T) (fuel : ℕ)
        → Holds cmp default max_val l xs
        → (add cmp fuel l key ≡ none)
          × (remove cmp fuel l key ≡ none)
          × (get cmp fuel default l key ≡ none)
    unfolding add remove get
    past_max_faults l xs zero (ns, v, e) = (
      refl,
      refl,
      ground (
        arith,
        v.head_cell,
        walk_off o max_val key past l.heap ns l.tail l.head 0 v.chain v.tail_cell v.under,
      ),
    )
    past_max_faults l xs (suc f) (ns, v, e) =
        let off =
          walk_off o max_val key past l.heap ns l.tail l.head (suc f) v.chain v.tail_cell v.under in
        (
          ground (arith, v.head_cell, off),
          ground (arith, v.head_cell, off),
          ground (arith, v.head_cell, off),
        )

  module _ (o : IsOrder cmp) (key : T) (l : LazyList T) (xs : List T) (fuel : ℕ)
      (v : Holds cmp default max_val l xs) where
    -- contains starts at the head sentinel: for a key that is not above T() its answer is the
    -- comparison with T(), whatever the list holds.
    pub contains_of_low_key :
        cmp default key ≡ false → contains cmp (suc fuel) l key ≡ some (equal cmp default key)
    unfolding contains
    contains_of_low_key h = ground (arith, v.1.head_cell)

    -- For a key above T() and below the largest value contains is the lookup of a sorted map, with
    -- one round more than there are entries, and one for the head, as fuel.
    pub contains_refines :
        cmp default key ≡ true
        → cmp key max_val ≡ true
        → length xs < fuel
        → contains cmp (suc fuel) l key ≡ some (is_found (find cmp key xs))
    unfolding contains
    contains_refines h fits lt =
        let (ns, w, e) = v in
        let n : length ns < fuel = omega (arith, ap length e, length-entries ns) in
        let (c, at, m, q) = at_curr o key l ns w fits in
        subst (λ ys. contains cmp (suc fuel) l key ≡ some (is_found (find cmp key ys))) e
          (ground (arith, w.head_cell, locate o key l ns w fuel fits n, at, m, q))
