-- ===== src/Ds/LazyList/Threads/Adds.antt =====
-- What `add` writes keeps the invariant, and inserts the key.
use libeva.Base.{
  ℕ, ◌≡◌, refl, sym, ap, subst, ◌∙◌, inl, inr, Bool, true, false, Option, some, List, arith,
}
use libeva.Ds.Sorted.{IsOrder, insert}
use libeva.Ds.LazyList.{Node, store, overwrite, link_new, equal}
use libeva.Ds.LazyList.Chain.{pred_of, insert_node, replace_node}
use libeva.Ds.LazyList.Shape.{IsList, entries, curr_of}
use libeva.Ds.LazyList.Writes.{inserted, overwritten, pred_node}
use libeva.Ds.LazyList.Threads.{Shared, Pc, answer, leaving, moved}
use libeva.Ds.LazyList.Threads.Place.{Apart-insert, Apart-replace}
use libeva.Ds.LazyList.Threads.Invariant.{Inv, Frame}
use libeva.Ds.LazyList.Threads.Located.{
  Locked, store_cases, store-same, store-other, equal_order, stepped, placed, p_node, rest_node,
  pred_ne_curr, hit, above,
}

module _ {T : Type 0} {cmp : T → T → Bool} {default max_val : T} (o : IsOrder cmp) where
  module _ {m : Shared T} {pcs : ℕ → Pc T} {ns : List (ℕ × T)}
      (v : Inv cmp max_val default m pcs ns) {u : ℕ} {key : T} {pred curr : ℕ} {p c : Node T}
      (k : Locked cmp max_val m u key pred curr p c) where
    open k use {fits, before, behind, hp, hc, ep, mp, np, ec, mc}
    open m use {list as l}
    open v use {list as vl}

    -- `add` of a key that another entry equals.
    abbrev pub over_mem : Shared T
    over_mem = record m { list = overwrite l key curr c }

    over-Frame : equal cmp c.entry key ≡ true → Frame cmp max_val u m over_mem
    unfolding overwrite equal
    over-Frame eq = record {
      untouched = λ a lt h. ground (arith, h, hc.0);
      holders = λ a t ne h. h;
      old_entry = λ a n lt e.
          elim (store_cases l.heap curr a (some (record c { entry = key })) n e) [
            | inl (same, q) ↦
                let one : record c { entry = key } ≡ n = cc in
                let it : key ≡ n.entry = ap (λ x. x.entry) one in
                (
                  c,
                  ap l.heap same ∙ ec,
                  λ j. ap (λ y. cmp y j) (sym it) ∙ equal_order o c.entry key j eq,
                )
            | inr (away, q) ↦ (n, q, λ j. refl)
          ];
      grows = omega arith;
      same_head = refl;
    }

    -- `add` of a new key.
    abbrev pub new_mem : Shared T
    new_mem = record m { list = link_new l key pred p curr }

    abbrev with_new : ℕ → Option (Node T)
    with_new =
        store l.heap l.fresh (some (record { entry = key; next = some curr; marked = false }))

    new-Frame : Frame cmp max_val u m new_mem
    unfolding link_new
    new-Frame = record {
      untouched = λ a lt h. ground (arith, h, lt, hp.0);
      holders = λ a t ne h. h;
      old_entry = λ a n lt e.
          elim (store_cases with_new pred a (some (record p { next = some l.fresh })) n e) [
            | inl (same, q) ↦
                let it : record p { next = some l.fresh } ≡ n = cc in
                (p, ap l.heap same ∙ ep, λ j. ap (λ y. cmp y.entry j) (sym it))
            | inr (away, q) ↦
                elim (store_cases l.heap l.fresh a
                  (some (record { entry = key; next = some curr; marked = false })) n q) [
                    | inl (new, q') ↦ absurd (omega (arith, new, lt))
                    | inr (old, q') ↦ (n, q', λ j. refl)
                  ]
          ];
      grows = omega arith;
      same_head = refl;
    }

    pub new-Inv :
        equal cmp c.entry key ≡ false
        → Inv cmp max_val default new_mem
            (moved pcs u (leaving (answer true) pred curr))
            (insert_node cmp key l.fresh ns)
          × (entries (insert_node cmp key l.fresh ns) ≡ insert cmp key (entries ns))
    unfolding link_new equal
    new-Inv ne =
        let up = above o v k ne in
        let (vl', en) =
          inserted o key l ns vl (λ a y rest e. ground (arith, (rest_node o v k a y rest e).1, up))
            fits in
        let at : link_new l key (pred_of cmp key l.head ns) (pred_node o key l ns vl)
              (curr_of o key l ns vl)
            ≡ link_new l key pred p curr =
          ap (λ a. link_new l key a (pred_node o key l ns vl) (curr_of o key l ns vl))
            (placed o v k).0
          ∙ ap (λ n. link_new l key pred n (curr_of o key l ns vl)) (sym (p_node o v k))
          ∙ ap (link_new l key pred p) (placed o v k).1 in
        (
          stepped o u (leaving (answer true) pred curr) v new-Frame
              (
                tt,
                (hp.0, omega (arith, hp.1), (record p { next = some l.fresh }, ground arith)),
                (hc.0, omega (arith, hc.1), (c, ground (arith, pred_ne_curr o v k, ec, hc.1))),
                pred_ne_curr o v k,
              )
              (λ loc. record {
                list =
                    subst (λ x. IsList cmp default max_val x (insert_node cmp key l.fresh ns)) at
                      vl';
                nodes = λ a n e mk nh nt away.
                    let (not_new, away') = Apart-insert cmp key a ns l.fresh away in
                    elim (store_cases with_new pred a (some (record p { next = some l.fresh })) n
                      e) [
                        | inl (same, q) ↦ v.nodes a p (ap l.heap same ∙ ep) mp nh nt away'
                        | inr (other, q) ↦ v.nodes a n (ground (arith, not_new, q)) mk nh nt away'
                      ];
                bounded = λ a le. ground (arith, hp.1, v.bounded a);
                links = λ a b n e q.
                    elim (store_cases with_new pred a (some (record p { next = some l.fresh })) n
                      e) [
                        | inl (same, r) ↦ ground (arith, r, q)
                        | inr (other, r) ↦
                            elim (store_cases l.heap l.fresh a
                              (some (record { entry = key; next = some curr; marked = false })) n
                              r) [
                                | inl (new, r') ↦ ground (arith, r', q, hc.1)
                                | inr (old, r') ↦ omega (arith, v.links a b n r' q)
                              ]
                      ];
                local = loc;
              }),
          en,
        )

    pub over-Inv :
        equal cmp c.entry key ≡ true
        → (ns' : List (ℕ × T)) × Inv cmp max_val default over_mem
            (moved pcs u (leaving (answer true) pred curr))
            ns'
          × (entries ns' ≡ insert cmp key (entries ns))
    unfolding overwrite
    over-Inv eq =
        let (y, rest, at, ec', hi) = hit o v k eq in
        let (vl', en) = overwritten o key l ns vl curr y rest at hi fits in
        let apart = pred_ne_curr o v k in
        (
          replace_node cmp key ns,
          stepped o u (leaving (answer true) pred curr) v (over-Frame eq)
              (
                tt,
                (
                  hp.0,
                  hp.1,
                  (p, store-other l.heap curr pred (some (record c { entry = key })) apart ∙ ep),
                ),
                (
                  hc.0,
                  hc.1,
                  (
                    record c { entry = key },
                    store-same l.heap curr (some (record c { entry = key })),
                  ),
                ),
                apart,
              )
              (λ loc. record {
                list =
                    subst
                      (λ x.
                        IsList cmp default max_val (overwrite l key curr x)
                          (replace_node cmp key ns))
                      (sym ec') vl';
                nodes = λ a n e mk nh nt away.
                    let away' = Apart-replace cmp key a ns away in
                    elim (store_cases l.heap curr a (some (record c { entry = key })) n e) [
                      | inl (same, q) ↦ v.nodes a c (ap l.heap same ∙ ec) mc nh nt away'
                      | inr (other, q) ↦ v.nodes a n q mk nh nt away'
                    ];
                bounded = λ a le.
                    store-other l.heap curr a (some (record c { entry = key }))
                      (λ e. omega (arith, hc.1, e, le))
                    ∙ v.bounded a le;
                links = λ a b n e q.
                    elim (store_cases l.heap curr a (some (record c { entry = key })) n e) [
                      | inl (same, r) ↦
                          let it : record c { entry = key } ≡ n = cc in
                          v.links curr b c ec (ap (λ x. x.next) it ∙ q)
                      | inr (other, r) ↦ v.links a b n r q
                    ];
                local = loc;
              }),
          en,
        )
