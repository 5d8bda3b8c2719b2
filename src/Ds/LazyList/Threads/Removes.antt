-- ===== src/Ds/LazyList/Threads/Removes.antt =====
-- What `remove` writes keeps the invariant, and deletes the key.
use libeva.Base.{
  ℕ, ◌≡◌, ◌≢◌, refl, sym, ap, subst, ◌∙◌, inl, inr, Bool, true, false, Option, none, some, List, [],
  ◌∷◌, arith,
}
use libeva.Ds.Sorted.{IsOrder, delete, find}
use libeva.Ds.LazyList.{Node, LazyList, store, equal, mark_unlink, free_node}
use libeva.Ds.LazyList.Chain.{cell, start, Chain, Apart, rest_of, pred_of, remove_node}
use libeva.Ds.LazyList.Shape.{IsList, entries}
use libeva.Ds.LazyList.Writes.{
  without_node, unlinked, pred_node, curr_node, find-rest, find-miss, entries-keep,
}
use libeva.Ds.LazyList.Refine.{is_found}
use libeva.Ds.LazyList.Threads.{Shared, Pc, freeing, deleted, moved}
use libeva.Ds.LazyList.Threads.Place.{Apart-remove}
use libeva.Ds.LazyList.Threads.Invariant.{Local, Inv, Frame}
use libeva.Ds.LazyList.Threads.Located.{
  Locked, store_cases, store-same, store-other, stepped, placed, p_node, rest_node, pred_ne_curr,
  hit, above,
}

module _ {T : Type 0} where
  -- An address with no unmarked node is not in the chain.
  Chain-Apart :
      (h : ℕ → Option (Node T)) (ns : List (ℕ × T)) (q b : ℕ)
      → Chain h ns q
      → ((x : T) (a : ℕ) → h b ≢ cell x a)
      → Apart b ns
  Chain-Apart h [] q b c free = tt
  Chain-Apart h ((a, x) ∷ r) q b c free =
      ((λ e. free x (start r q) (ap h e ∙ c.0)), Chain-Apart h r q b c.1 free)

  Chain-agree :
      (h h' : ℕ → Option (Node T)) (ns : List (ℕ × T)) (q b : ℕ)
      → Apart b ns
      → ((a : ℕ) → a ≢ b → h' a ≡ h a)
      → Chain h ns q
      → Chain h' ns q
  Chain-agree h h' [] q b away same c = tt
  Chain-agree h h' ((a, x) ∷ r) q b away same c =
      (same a (λ e. away.0 (sym e)) ∙ c.0, Chain-agree h h' r q b away.1 same c.1)

  -- What stands at an address with no unmarked node does not matter to the list.
  IsList-agree :
      {cmp : T → T → Bool} {default max_val : T} {l : LazyList T} {ns : List (ℕ × T)}
      (h' : ℕ → Option (Node T)) (b : ℕ)
      → IsList cmp default max_val l ns
      → ((n : Node T) → l.heap b ≡ some n → n.marked ≡ true)
      → ((a : ℕ) → a ≢ b → h' a ≡ l.heap a)
      → IsList cmp default max_val (record l { heap = h' }) ns
  IsList-agree {l = l} {ns = ns} h' b v marked same = record {
    head_cell = same l.head (λ e. clash (marked _ (ap l.heap (sym e) ∙ v.head_cell))) ∙ v.head_cell;
    tail_cell = same l.tail (λ e. clash (marked _ (ap l.heap (sym e) ∙ v.tail_cell))) ∙ v.tail_cell;
    chain =
        Chain-agree l.heap h' ns l.tail b
          (Chain-Apart l.heap ns l.tail b v.chain (λ x a e. clash (marked _ e))) same v.chain;
    distinct = v.distinct;
    head_apart = v.head_apart;
    tail_apart = v.tail_apart;
    head_ne_tail = v.head_ne_tail;
    below = v.below;
    head_below = v.head_below;
    tail_below = v.tail_below;
    count = v.count;
    sorted = v.sorted;
    under = v.under;
  }
    where
      clash : false ≡ true → ⊥
      clash e = cc

module _ {T : Type 0} {cmp : T → T → Bool} {default max_val : T} (o : IsOrder cmp) where
  module _ {m : Shared T} {pcs : ℕ → Pc T} {ns : List (ℕ × T)}
      (v : Inv cmp max_val default m pcs ns) {u : ℕ} {key : T} {pred curr : ℕ} {p c : Node T}
      (k : Locked cmp max_val m u key pred curr p c) where
    open k use {fits, before, behind, hp, hc, ep, mp, np, ec, mc}
    open m use {list as l}
    open v use {list as vl}

    -- `remove` of a key that is not there, and of one that is.
    pub missed :
        equal cmp c.entry key ≡ false
        → (find cmp key (entries ns) ≡ none) × (entries ns ≡ delete cmp key (entries ns))
    missed ne =
        let high : (a : ℕ) (y : T) (rest : List (ℕ × T))
            → rest_of cmp key ns ≡ (a, y) ∷ rest
            → cmp key y ≡ true =
          λ a y rest e.
            ap (λ n. cmp key n.entry) (sym (rest_node o v k a y rest e).1) ∙ above o v k ne in
        (find-miss cmp o key ns vl.sorted high, sym (entries-keep cmp key ns high))

    pub spotted : equal cmp c.entry key ≡ true → is_found (find cmp key (entries ns)) ≡ true
    spotted eq =
        let (y, rest, at, ec', hi) = hit o v k eq in
        ap is_found (find-rest cmp key ns curr y rest at hi)

    abbrev next_pred : Node T
    next_pred = record p { next = c.next }

    abbrev without : ℕ → Option (Node T)
    without = store l.heap pred (some next_pred)

    abbrev marked_curr : Node T
    marked_curr = record c { marked = true }

    abbrev pub cut_mem : Shared T
    cut_mem = record m { list = mark_unlink l pred p curr c }

    cut-Frame : Frame cmp max_val u m cut_mem
    unfolding mark_unlink
    cut-Frame = record {
      untouched = λ a lt h.
          let apart_curr : a ≢ curr = λ e. h (ap m.holder e ∙ hc.0) in
          let apart_pred : a ≢ pred = λ e. h (ap m.holder e ∙ hp.0) in
          store-other without curr a (some marked_curr) apart_curr
          ∙ store-other l.heap pred a (some next_pred) apart_pred;
      holders = λ a t ne h. h;
      old_entry = λ a n lt e. elim (store_cases without curr a (some marked_curr) n e) [
        | inl (same, q) ↦
            let it : marked_curr ≡ n = cc in
            (c, ap l.heap same ∙ ec, λ j. ap (λ y. cmp y.entry j) (sym it))
        | inr (away, q) ↦ elim (store_cases l.heap pred a (some next_pred) n q) [
          | inl (same, q') ↦
              let it : next_pred ≡ n = cc in
              (p, ap l.heap same ∙ ep, λ j. ap (λ y. cmp y.entry j) (sym it))
          | inr (old, q') ↦ (n, q', λ j. refl)
        ]
      ];
      grows = omega arith;
      same_head = refl;
    }

    cut-IsList :
        equal cmp c.entry key ≡ true
        → IsList cmp default max_val (mark_unlink l pred p curr c) (remove_node cmp key ns)
          × (entries (remove_node cmp key ns) ≡ delete cmp key (entries ns))
    unfolding mark_unlink
    cut-IsList eq =
        let (y, rest, at, ec', hi) = hit o v k eq in
        let (vl', en) = unlinked o key l ns vl curr y rest at hi in
        let same : without_node l (pred_of cmp key l.head ns) (pred_node o key l ns vl) curr
              (curr_node o key l ns vl curr y rest at)
            ≡ without_node l pred p curr c =
          ap
            (λ a.
              without_node l a (pred_node o key l ns vl) curr
                (curr_node o key l ns vl curr y rest at))
            (placed o v k).0
          ∙ ap (λ n. without_node l pred n curr (curr_node o key l ns vl curr y rest at))
              (sym (p_node o v k))
          ∙ ap (without_node l pred p curr) (sym ec') in
        let list = subst (λ x. IsList cmp default max_val x (remove_node cmp key ns)) same vl' in
        (
          IsList-agree (store without curr (some marked_curr)) curr list
              (λ n e. let gone : none ≡ some n = sym (store-same without curr none) ∙ e in cc)
              (λ a away.
                store-other without curr a (some marked_curr) away
                ∙ sym (store-other without curr a none away)),
          en,
        )

    pub cut-Inv :
        equal cmp c.entry key ≡ true
        → (ns' : List (ℕ × T)) × Inv cmp max_val default cut_mem
            (moved pcs u (freeing pred curr))
            ns'
          × (entries ns' ≡ delete cmp key (entries ns))
    unfolding mark_unlink
    cut-Inv eq =
        let (y, rest, at, ec', hi) = hit o v k eq in
        let (vl', en) = cut-IsList eq in
        let apart = pred_ne_curr o v k in
        let at_curr = store-same without curr (some marked_curr) in
        (
          remove_node cmp key ns,
          stepped o u (freeing pred curr) v cut-Frame
              (
                (
                  hp.0,
                  hp.1,
                  (
                    next_pred,
                    store-other without curr pred (some marked_curr) apart
                        ∙ store-same l.heap pred (some next_pred),
                  ),
                ),
                (hc.0, hc.1, (marked_curr, at_curr)),
                apart,
                (marked_curr, at_curr, refl),
              )
              (λ loc. record {
                list = vl';
                nodes = λ a n e mk nh nt away.
                    elim (store_cases without curr a (some marked_curr) n e) [
                      | inl (same, q) ↦
                          let it : marked_curr ≡ n = cc in
                          let clash : true ≡ false = ap (λ x. x.marked) it ∙ mk in cc
                      | inr (other, q) ↦
                          let away' = Apart-remove cmp key a ns curr y rest at other away in
                          elim (store_cases l.heap pred a (some next_pred) n q) [
                            | inl (same, q') ↦ v.nodes a p (ap l.heap same ∙ ep) mp nh nt away'
                            | inr (old, q') ↦ v.nodes a n q' mk nh nt away'
                          ]
                    ];
                bounded = λ a le.
                    store-other without curr a (some marked_curr) (λ e. omega (arith, hc.1, e, le))
                    ∙ store-other l.heap pred a (some next_pred) (λ e. omega (arith, hp.1, e, le))
                    ∙ v.bounded a le;
                links = λ a b n e q. elim (store_cases without curr a (some marked_curr) n e) [
                  | inl (same, r) ↦
                      let it : marked_curr ≡ n = cc in v.links curr b c ec (ap (λ x. x.next) it ∙ q)
                  | inr (other, r) ↦ elim (store_cases l.heap pred a (some next_pred) n r) [
                    | inl (same, r') ↦
                        let it : next_pred ≡ n = cc in v.links curr b c ec (ap (λ x. x.next) it ∙ q)
                    | inr (old, r') ↦ v.links a b n r' q
                  ]
                ];
                local = loc;
              }),
          en,
        )

  -- `delete curr` of a node that is marked, under both locks.
  module _ {m : Shared T} {pcs : ℕ → Pc T} {ns : List (ℕ × T)}
      (v : Inv cmp max_val default m pcs ns) {u pred curr : ℕ}
      (k : Local cmp max_val m u (freeing pred curr)) where
    open m use {list as l}

    abbrev pub free_mem : Shared T
    free_mem = record m { list = free_node l curr }

    free-Frame : Frame cmp max_val u m free_mem
    unfolding free_node
    free-Frame = record {
      untouched = λ a lt h. store-other l.heap curr a none (λ e. h (ap m.holder e ∙ k.1.0));
      holders = λ a t ne h. h;
      old_entry = λ a n lt e. elim (store_cases l.heap curr a none n e) [
        | inl (same, q) ↦ absurd (cc)
        | inr (away, q) ↦ (n, q, λ j. refl)
      ];
      grows = omega arith;
      same_head = refl;
    }

    pub free-Inv : Inv cmp max_val default free_mem (moved pcs u (deleted pred curr)) ns
    unfolding free_node
    free-Inv =
        let ((hp0, hp1, (p, ep)), (hc0, hc1, x), apart, (c, ec, mk)) = k in
        stepped o u (deleted pred curr) v free-Frame
          (
            (hp0, hp1, (p, store-other l.heap curr pred none apart ∙ ep)),
            hc1,
            store-same l.heap curr none,
          )
          (λ loc. record {
            list =
                IsList-agree (store l.heap curr none) curr v.list
                  (λ n e.
                    let one : some c ≡ some n = sym ec ∙ e in
                    let it : c ≡ n = cc in ap (λ y. y.marked) (sym it) ∙ mk)
                  (λ a away. store-other l.heap curr a none away);
            nodes = λ a n e mk' nh nt away. elim (store_cases l.heap curr a none n e) [
              | inl (same, q) ↦ absurd (cc)
              | inr (other, q) ↦ v.nodes a n q mk' nh nt away
            ];
            bounded = λ a le.
                store-other l.heap curr a none (λ e. omega (arith, hc1, e, le)) ∙ v.bounded a le;
            links = λ a b n e q. elim (store_cases l.heap curr a none n e) [
              | inl (same, r) ↦ absurd (cc)
              | inr (other, r) ↦ v.links a b n r q
            ];
            local = loc;
          })
