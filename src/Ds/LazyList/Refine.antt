-- ===== src/Ds/LazyList/Refine.antt =====
-- The operations of the list on a heap do what the sorted map of Ds/Sorted does.
use libeva.Base.{
  ◌==◌, ℕ, zero, suc, ◌<◌, ◌≡◌, refl, sym, ap, subst, ◌∙◌, inl, inr, Bool, true, false, not, ◌||◌,
  Option, none, some, List, ◌∷◌, arith, length, Bool-cases, if◌then◌else◌,
}
use libeva.Ds.Sorted.{IsOrder, insert, delete, find}
use libeva.Ds.LazyList.{
  Node, LazyList, store, walk, validate, equal, overwrite, link_new, unlink, free_node, drop_guards,
  add_locked, add, remove_locked, remove, get,
}
use libeva.Ds.LazyList.Chain.{cell, start, rest_of, pred_of, remove_node}
use libeva.Ds.LazyList.Shape.{
  IsList-Holds, entries, length-entries, end_node, IsList, Holds, curr_of, locate, at_pred,
  validate-locate,
}
use libeva.Ds.LazyList.Writes.{
  at_end, at_node, stop, inserted, overwritten, unlinked, unlink-without_node, pred_node, curr_node,
  find-rest, find-miss,
}

-- Whether a lookup found something, and what it found or the default.
abbrev pub is_found {ℓ} : {T : Type ℓ} → Option T → Bool
is_found none = false
is_found (some x) = true

abbrev pub found_or {ℓ} : {T : Type ℓ} → Option T → T → T
found_or none d = d
found_or (some x) d = x

module _ {ℓ} {T : Type ℓ} (cmp : T → T → Bool) (default max_val : T) (key : T) where
  -- A call of `remove` that comes to a node with the key: under its locks it leaves the heap of the
  -- list without the key, with no node at `curr`, whose lock the inner guard then releases.
  pub record Removing (fuel : ℕ) (l : LazyList T) (xs : List T) : Type ℓ where
    pub head_node : Node T
    pub at_head : l.heap l.head ≡ some head_node
    pub first : ℕ
    pub from_head : head_node.next ≡ some first
    pub pred : ℕ
    pub curr : ℕ
    pub walked : walk cmp fuel l.heap key l.head first ≡ some (pred, curr)
    pub p : Node T
    pub c : Node T
    pub at_pred : l.heap pred ≡ some p
    pub at_curr : l.heap curr ≡ some c
    pub passed : validate l pred curr ≡ some true
    pub equals : equal cmp c.entry key ≡ true
    pub left : Holds cmp default max_val (unlink l pred p curr c) (delete cmp key xs)
    pub freed : (unlink l pred p curr c).heap curr ≡ none
    pub faults : remove cmp fuel l key ≡ none

  -- By what a lookup finds.
  abbrev pub Removed : ℕ → LazyList T → List T → Option T → Type ℓ
  Removed fuel l xs none = remove cmp fuel l key ≡ some (l, false)
  Removed fuel l xs (some x) = Removing fuel l xs

  -- What the three calls give of a list that holds `xs`.
  pub record Calls (fuel : ℕ) (l : LazyList T) (xs : List T) : Type ℓ where
    pub added :
        (l' : LazyList T) × (add cmp fuel l key ≡ some (l', true))
        × Holds cmp default max_val l' (insert cmp key xs)
    pub removed : Removed fuel l xs (find cmp key xs)
    pub got : get cmp fuel default l key ≡ some (found_or (find cmp key xs) default)

module _ {ℓ} {T : Type ℓ} where
  -- A write of a node leaves the others there.
  written-there :
      (h : ℕ → Option (Node T)) (a b : ℕ) (x n : Node T)
      → h b ≡ some n
      → (n' : Node T) × (store h a (some x) b ≡ some n')
  written-there h a b x n e = elim (Bool-cases (b == a)) [
    | inl same ↦ (x, rw same refl)
    | inr other ↦ (n, rw other e)
  ]

  guards-there :
      {R : Type ℓ} (l : LazyList T) (pred curr : ℕ) (r : R)
      → ((c : Node T) × (l.heap curr ≡ some c))
      → ((p : Node T) × (l.heap pred ≡ some p))
      → drop_guards l pred curr r ≡ some r
  guards-there l pred curr r (c, e) (p, q) = rw (e, q) refl

module _ {ℓ} {T : Type ℓ} {cmp : T → T → Bool} {default max_val : T} (o : IsOrder cmp) where
  module _ (key : T) (l : LazyList T) (ns : List (ℕ × T))
      (v : IsList cmp default max_val l ns) where
    -- A call of `add` ends in its first round, with what the locked part gives.
    add_first_round :
        (fuel : ℕ) (r : LazyList T × Bool)
        → cmp key max_val ≡ true
        → length ns < fuel
        → add_locked cmp l key (pred_of cmp key l.head ns) (curr_of o key l ns v) ≡ some (some r)
        → add cmp fuel l key ≡ some r
    unfolding add
    add_first_round zero r h lt e = absurd (omega arith)
    add_first_round (suc f) r h lt e =
        ground (arith, v.head_cell, locate o key l ns v (suc f) h lt, e)

    remove_first_round :
        (fuel : ℕ) (r : LazyList T × Bool)
        → cmp key max_val ≡ true
        → length ns < fuel
        → remove_locked cmp l key (pred_of cmp key l.head ns) (curr_of o key l ns v) ≡ some (some r)
        → remove cmp fuel l key ≡ some r
    unfolding remove
    remove_first_round zero r h lt e = absurd (omega arith)
    remove_first_round (suc f) r h lt e =
        ground (arith, v.head_cell, locate o key l ns v (suc f) h lt, e)

    -- Where the locked part faults, so does the call.
    remove_first_fault :
        (fuel : ℕ)
        → cmp key max_val ≡ true
        → length ns < fuel
        → remove_locked cmp l key (pred_of cmp key l.head ns) (curr_of o key l ns v) ≡ none
        → remove cmp fuel l key ≡ none
    unfolding remove
    remove_first_fault zero h lt e = absurd (omega arith)
    remove_first_fault (suc f) h lt e =
        ground (arith, v.head_cell, locate o key l ns v (suc f) h lt, e)

    -- The guards find their nodes after the writes of `add`.
    overwrite-guards :
        {R : Type ℓ} (c : Node T) (r : R)
        → l.heap (curr_of o key l ns v) ≡ some c
        → drop_guards
            (overwrite l key (curr_of o key l ns v) c)
            (pred_of cmp key l.head ns)
            (curr_of o key l ns v)
            r
          ≡ some r
    unfolding overwrite
    overwrite-guards c r e =
        let curr = curr_of o key l ns v in
        let after = record c { entry = key } in
        guards-there (overwrite l key curr c) (pred_of cmp key l.head ns) curr r
          (written-there l.heap curr curr after c e)
          (written-there l.heap curr (pred_of cmp key l.head ns) after _ (at_pred o key l ns v))

    link_new-guards :
        {R : Type ℓ} (c : Node T) (r : R)
        → l.heap (curr_of o key l ns v) ≡ some c
        → drop_guards
            (link_new l key
              (pred_of cmp key l.head ns)
              (pred_node o key l ns v)
              (curr_of o key l ns v))
            (pred_of cmp key l.head ns)
            (curr_of o key l ns v)
            r
          ≡ some r
    unfolding link_new
    link_new-guards c r e =
        let curr = curr_of o key l ns v in
        let pred = pred_of cmp key l.head ns in
        let entry : Node T = record { entry = key; next = some curr; marked = false } in
        let linked : Node T = record (pred_node o key l ns v) { next = some l.fresh } in
        let (c', e') = written-there l.heap l.fresh curr entry c e in
        let (p', q') = written-there l.heap l.fresh pred entry _ (at_pred o key l ns v) in
        let made = store l.heap l.fresh (some entry) in
        guards-there (link_new l key pred (pred_node o key l ns v) curr) pred curr r
          (written-there made pred curr linked c' e') (written-there made pred pred linked p' q')

    unlink-freed :
        (c : Node T)
        → (unlink l
              (pred_of cmp key l.head ns)
              (pred_node o key l ns v)
              (curr_of o key l ns v)
              c).heap
            (curr_of o key l ns v)
          ≡ none
    unfolding unlink free_node
    unlink-freed c = ground arith

    -- The locked part on a node, by whether its entry equals the key.
    locked :
        (c : Node T)
        → l.heap (curr_of o key l ns v) ≡ some c
        → c.marked ≡ false
        → (add_locked cmp l key (pred_of cmp key l.head ns) (curr_of o key l ns v)
            ≡ some (
                some (
                  if equal cmp c.entry key
                  then (overwrite l key (curr_of o key l ns v) c, true)
                  else (
                    link_new l key
                        (pred_of cmp key l.head ns)
                        (pred_node o key l ns v)
                        (curr_of o key l ns v),
                    true,
                  ))))
          × (remove_locked cmp l key (pred_of cmp key l.head ns) (curr_of o key l ns v)
              ≡ (if equal cmp c.entry key then none else some (some (l, false))))
    unfolding add_locked remove_locked
    locked c e m = (
      elim (Bool-cases (equal cmp c.entry key)) [
        | inl same ↦
            rw (validate-locate o key l ns v c e m, at_pred o key l ns v, e, same)
              (overwrite-guards c _ e)
        | inr other ↦
            rw (validate-locate o key l ns v c e m, at_pred o key l ns v, e, other)
              (link_new-guards c _ e)
      ],
      elim (Bool-cases (equal cmp c.entry key)) [
        | inl same ↦
            rw (validate-locate o key l ns v c e m, at_pred o key l ns v, e, same, unlink-freed c)
              refl
        | inr other ↦ rw (validate-locate o key l ns v c e m, at_pred o key l ns v, e, other) refl
      ],
    )

    got_lem :
        (fuel : ℕ) (c : Node T)
        → cmp key max_val ≡ true
        → length ns < fuel
        → l.heap (curr_of o key l ns v) ≡ some c
        → get cmp fuel default l key
          ≡ some (if c.marked || not (equal cmp c.entry key) then default else c.entry)
    unfolding get
    got_lem fuel c h lt e = ground (arith, v.head_cell, locate o key l ns v fuel h lt, e)

    -- A greater entry, or the largest value, where the walk stops: the key is not in the list.
    miss :
        (c : Node T)
        → l.heap (curr_of o key l ns v) ≡ some c
        → c.marked ≡ false
        → equal cmp c.entry key ≡ false
        → ((a : ℕ) (y : T) (rest : List (ℕ × T))
            → rest_of cmp key ns ≡ (a, y) ∷ rest
            → cmp key y ≡ true)
        → cmp key max_val ≡ true
        → (fuel : ℕ) → length ns < fuel
        → Calls cmp default max_val key fuel l (entries ns)
    miss c e m ne h fits fuel lt =
        let steps = locked c e m in
        let n = find-miss cmp o key ns v.sorted h in
        record {
          added = (
            _,
            add_first_round fuel _ fits lt (rw ne at steps.0),
            IsList-Holds (inserted o key l ns v h fits),
          );
          removed = rw n (remove_first_round fuel _ fits lt (rw ne at steps.1));
          got = rw n (rw (m, ne) at (got_lem fuel c fits lt e));
        }

    -- An equal entry where the walk stops.
    hit :
        (c : ℕ) (y : T) (rest : List (ℕ × T))
        → rest_of cmp key ns ≡ (c, y) ∷ rest
        → l.heap c ≡ cell y (start rest l.tail)
        → equal cmp y key ≡ true
        → cmp key y ≡ false
        → cmp key max_val ≡ true
        → (fuel : ℕ) → length ns < fuel
        → Calls cmp default max_val key fuel l (entries ns)
    hit c y rest at e eq hi fits fuel lt =
        let ec : curr_of o key l ns v ≡ c = ap (λ r. start r l.tail) at in
        let node = curr_node o key l ns v c y rest at in
        let here : l.heap (curr_of o key l ns v) ≡ some node = ap l.heap ec ∙ e in
        let steps = locked node here refl in
        let n = find-rest cmp key ns c y rest at hi in
        record {
          added = (
            overwrite l key c node,
            add_first_round fuel _ fits lt
                (rw eq at steps.0 ∙ ap (λ a. some (some (overwrite l key a node, true))) ec),
            IsList-Holds (overwritten o key l ns v c y rest at hi fits),
          );
          removed = rw n (record {
            head_node = record { entry = default; next = some (start ns l.tail); marked = false };
            at_head = v.head_cell;
            first = start ns l.tail;
            from_head = refl;
            pred = pred_of cmp key l.head ns;
            curr = curr_of o key l ns v;
            walked = locate o key l ns v fuel fits lt;
            p = pred_node o key l ns v;
            c = node;
            at_pred = at_pred o key l ns v;
            at_curr = here;
            passed = validate-locate o key l ns v node here refl;
            equals = eq;
            left =
                subst
                  (λ a.
                    Holds cmp default max_val
                      (unlink l (pred_of cmp key l.head ns) (pred_node o key l ns v) a node)
                      (delete cmp key (entries ns)))
                  (sym ec)
                  (IsList-Holds (
                    subst
                      (λ r.
                        IsList cmp default max_val r (remove_node cmp key ns)
                        × (entries (remove_node cmp key ns) ≡ delete cmp key (entries ns)))
                      (sym (
                        unlink-without_node l (pred_of cmp key l.head ns) (pred_node o key l ns v) c
                          node))
                      (unlinked o key l ns v c y rest at hi)));
            freed = unlink-freed node;
            faults = remove_first_fault fuel fits lt (rw eq at steps.1);
          });
          got = rw n (rw eq at (got_lem fuel node fits lt here));
        }

    -- The node where the walk stops tells whether the list has the key.
    pub at_curr :
        cmp key max_val ≡ true
        → (c : Node T) × (l.heap (curr_of o key l ns v) ≡ some c)
          × (c.marked ≡ false)
          × (equal cmp c.entry key ≡ is_found (find cmp key (entries ns)))
    unfolding equal
    at_curr fits = elim (stop o key l ns v) [
      | at_end e ↦
          let n = find-miss cmp o key ns v.sorted (λ a y rest e'. ground arith) in
          (
            end_node max_val,
            ap l.heap (ap (λ r. start r l.tail) e) ∙ v.tail_cell,
            refl,
            ground (arith, n),
          )
      | at_node c y rest e lo at ↦
          let here = ap l.heap (ap (λ r. start r l.tail) e) ∙ at in
          elim (Bool-cases (cmp key y)) [
            | inl up ↦
                let n = find-miss cmp o key ns v.sorted (λ a y' rest' e'. ground arith) in
                (curr_node o key l ns v c y rest e, here, refl, ground (arith, n))
            | inr same' ↦
                let n = find-rest cmp key ns c y rest e same' in
                (curr_node o key l ns v c y rest e, here, refl, ground (arith, n))
          ]
    ]

    calls :
        (fuel : ℕ)
        → cmp key max_val ≡ true
        → length ns < fuel
        → Calls cmp default max_val key fuel l (entries ns)
    unfolding equal
    calls fuel fits lt = elim (stop o key l ns v) [
      | at_end e ↦
          let ec : curr_of o key l ns v ≡ l.tail = ap (λ r. start r l.tail) e in
          miss (end_node max_val) (ap l.heap ec ∙ v.tail_cell) refl (ground arith)
            (λ a y rest e'. ground arith) fits fuel lt
      | at_node c y rest e lo at ↦ elim (Bool-cases (cmp key y)) [
        | inl up ↦
            let ec : curr_of o key l ns v ≡ c = ap (λ r. start r l.tail) e in
            miss (curr_node o key l ns v c y rest e) (ap l.heap ec ∙ at) refl (ground arith)
              (λ a y' rest' e'. ground arith) fits fuel lt
        | inr same' ↦ hit c y rest e at (ground arith) same' fits fuel lt
      ]
    ]

  -- On a heap that holds the entries of a sorted list, with one round more than there are entries as
  -- fuel and a key below the largest value: add and get return and do what insert and find of a
  -- sorted map do, and remove of a key that is not there returns false and changes nothing. remove of
  -- a key that is there comes to its node, passes validate and leaves the heap with the list that
  -- delete gives and no node at curr, and the call is then a fault, where the inner guard releases
  -- the lock that stood in this node.
  pub Calls-refine :
      (key : T) (l : LazyList T) (xs : List T) (fuel : ℕ)
      → Holds cmp default max_val l xs
      → cmp key max_val ≡ true
      → length xs < fuel
      → Calls cmp default max_val key fuel l xs
  Calls-refine key l xs fuel (ns, v, e) fits lt =
      subst (Calls cmp default max_val key fuel l) e
        (calls key l ns v fuel fits (omega (arith, ap length e, length-entries ns)))
