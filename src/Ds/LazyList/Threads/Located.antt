-- ===== src/Ds/LazyList/Threads/Located.antt =====
-- Where a thread stands that has validated under both locks.
use libeva.Base.{
  ℕ, ◌≡◌, ◌≢◌, refl, sym, ap, subst, ◌∙◌, inl, inr, ◌⊎◌, Bool, true, false, Option, none, some,
  List, [], ◌∷◌, arith, Bool-cases, ◌==◌, ==_iff,
}
use libeva.Ds.Sorted.{IsOrder}
use libeva.Ds.LazyList.{Node, store, equal}
use libeva.Ds.LazyList.Chain.{cell, start, Chain, Apart, rest_of, pred_of}
use libeva.Ds.LazyList.Shape.{end_node, Chain-rest, at_pred}
use libeva.Ds.LazyList.Writes.{pred_node, at_end, at_node, stop}
use libeva.Ds.LazyList.Threads.{Shared, Pc, moved}
use libeva.Ds.LazyList.Threads.Place.{stop_here, seek}
use libeva.Ds.LazyList.Threads.Invariant.{Held, Ahead, Behind, Local, Inv, Frame, Local-stable}

pub store-same :
    {T : Type 0} (h : ℕ → Option (Node T)) (a : ℕ) (n : Option (Node T)) → store h a n a ≡ n
store-same h a n = let here : (a == a) ≡ true = (==_iff a a).1 refl in rw here refl

pub store-other :
    {T : Type 0} (h : ℕ → Option (Node T)) (a b : ℕ) (n : Option (Node T))
    → b ≢ a
    → store h a n b ≡ h b
store-other h a b n away = elim (Bool-cases (b == a)) [
  | inl same ↦ absurd (away ((==_iff b a).0 same))
  | inr other ↦ rw other refl
]

-- A thread that has both locks and has validated.
pub record Locked {T : Type 0} (cmp : T → T → Bool) (max_val : T) (m : Shared T) (u : ℕ) (key : T)
    (pred curr : ℕ) (p c : Node T) : Type 0 where
  pub fits : cmp key max_val ≡ true
  pub before : Ahead cmp max_val m key pred
  pub behind : Behind cmp max_val m key curr
  pub hp : Held cmp max_val m u pred
  pub hc : Held cmp max_val m u curr
  pub ep : m.list.heap pred ≡ some p
  pub mp : p.marked ≡ false
  pub np : p.next ≡ some curr
  pub ec : m.list.heap curr ≡ some c
  pub mc : c.marked ≡ false

pub store_cases :
    {T : Type 0} (h : ℕ → Option (Node T)) (a b : ℕ) (n : Option (Node T)) (x : Node T)
    → store h a n b ≡ some x
    → ((b ≡ a) × (n ≡ some x)) ⊎ ((b ≢ a) × (h b ≡ some x))
store_cases h a b n x e = elim (Bool-cases (b == a)) [
  | inl same ↦ inl ((==_iff b a).0 same, ground (arith, e, same))
  | inr other ↦ inr ((λ q. ground (arith, q, other)), ground (arith, e, other))
]

pub equal_order :
    {T : Type 0} {cmp : T → T → Bool} (o : IsOrder cmp) (x y k : T)
    → equal cmp x y ≡ true
    → cmp y k ≡ cmp x k
unfolding equal
equal_order {cmp = cmp} o x y k e = elim (Bool-cases (cmp y k)) [
  | inl below ↦ ground (arith, below, e, o.cotrans y x k)
  | inr above ↦ elim (Bool-cases (cmp x k)) [
    | inl below ↦ ground (arith, below, e, o.cotrans x y k)
    | inr not_below ↦ above ∙ sym not_below
  ]
]

module _ {T : Type 0} {cmp : T → T → Bool} {default max_val : T} (o : IsOrder cmp) where
  -- What is left to show of a step: what its thread knows after it, and the nodes.
  pub stepped :
      {m m' : Shared T} {pcs : ℕ → Pc T} {ns ns' : List (ℕ × T)} (u : ℕ) (p : Pc T)
      → Inv cmp max_val default m pcs ns
      → Frame cmp max_val u m m'
      → Local cmp max_val m' u p
      → ((l : (t : ℕ) → Local cmp max_val m' t (moved pcs u p t))
          → Inv cmp max_val default m' (moved pcs u p) ns')
      → Inv cmp max_val default m' (moved pcs u p) ns'
  stepped {m} {m'} {pcs} u p v f own close = close (λ t. elim (Bool-cases (t == u)) [
    | inl same ↦ ground (arith, same, own)
    | inr other ↦
        rw other (Local-stable cmp max_val f t (λ q. ground (arith, q, other)) (pcs t) (v.local t))
  ])

  module _ {m : Shared T} {pcs : ℕ → Pc T} {ns : List (ℕ × T)}
      (v : Inv cmp max_val default m pcs ns) {u : ℕ} {key : T} {pred curr : ℕ} {p c : Node T}
      (k : Locked cmp max_val m u key pred curr p c) where
    open k use {fits, before, behind, hp, hc, ep, mp, np, ec, mc}
    open m use {list as l}
    open v use {list as vl}

    at_head :
        pred ≡ l.head
        → (pred_of cmp key l.head ns ≡ pred) × (start (rest_of cmp key ns) l.tail ≡ curr)
    at_head e =
        let one : some p ≡ cell default (start ns l.tail) = sym ep ∙ ap l.heap e ∙ vl.head_cell in
        let at : start ns l.tail ≡ curr = ground (arith, one, np) in
        let (pr, re) = stop_here cmp key l.heap ns l.tail l.head curr vl.chain at behind.1 in
        (pr ∙ sym e, ap (λ r. start r l.tail) re ∙ at)

    -- The two nodes are where an undisturbed walk would stop.
    pub placed : (pred_of cmp key l.head ns ≡ pred) × (start (rest_of cmp key ns) l.tail ≡ curr)
    placed = elim (before.1 p ep) [
      | inl e ↦ at_head e
      | inr lt ↦ elim (Bool-cases (pred == l.head)) [
        | inl same ↦ at_head ((==_iff pred l.head).0 same)
        | inr not_head ↦ elim (Bool-cases (pred == l.tail)) [
          | inl same ↦
              let one = sym ep ∙ ap l.heap ((==_iff pred l.tail).0 same) ∙ vl.tail_cell in
              let it : p ≡ end_node max_val = cc in
              let gone : none ≡ some curr = sym (ap (λ n. n.next) it) ∙ np in cc
          | inr not_tail ↦
              seek cmp key l.heap o ns l.tail l.head pred curr p vl.chain vl.sorted ep np lt
                (v.nodes pred p ep mp (λ q. ground (arith, q, not_head))
                  (λ q. ground (arith, q, not_tail)))
                behind.1
        ]
      ]
    ]

    pub p_node : p ≡ pred_node o key l ns vl
    p_node = let one = sym ep ∙ ap l.heap (sym placed.0) ∙ at_pred o key l ns vl in cc

    pub rest_node :
        (a : ℕ) (y : T) (rest : List (ℕ × T))
        → rest_of cmp key ns ≡ (a, y) ∷ rest
        → (a ≡ curr) × (c ≡ record { entry = y; next = some (start rest l.tail); marked = false })
    rest_node a y rest e =
        let ch =
          subst (λ r. Chain l.heap r l.tail) e (Chain-rest cmp key l.heap ns l.tail vl.chain) in
        let at : a ≡ curr = ap (λ r. start r l.tail) (sym e) ∙ placed.1 in
        let one = sym ec ∙ ap l.heap (sym at) ∙ ch.0 in (at, cc)

    pub pred_ne_curr : pred ≢ curr
    pred_ne_curr same =
        let one : some p ≡ some c = sym ep ∙ ap l.heap same ∙ ec in
        let stops = behind.1 c ec in
        elim (before.1 p ep) [
          | inr lt ↦ ground (arith, one, lt, stops)
          | inl e ↦
              let first : some p ≡ cell default (start ns l.tail) =
                sym ep ∙ ap l.heap e ∙ vl.head_cell in
              let at : start ns l.tail ≡ l.head = ground (arith, first, np, same, e) in
              start_ne_head ns vl.head_apart at
        ]
      where
        start_ne_head : (r : List (ℕ × T)) → Apart l.head r → start r l.tail ≢ l.head
        start_ne_head [] h q = vl.head_ne_tail (sym q)
        start_ne_head ((a, x) ∷ r) h q = h.0 (sym q)

    -- An entry that equals the key stands in a node of the list.
    pub hit :
        equal cmp c.entry key ≡ true
        → (y : T) × (rest : List (ℕ × T)) × (rest_of cmp key ns ≡ (curr, y) ∷ rest)
          × (c ≡ record { entry = y; next = some (start rest l.tail); marked = false })
          × (cmp key y ≡ false)
    unfolding equal
    hit eq = elim (stop o key l ns vl) [
      | at_end e ↦
          let one = sym ec ∙ ap l.heap (sym placed.1 ∙ ap (λ r. start r l.tail) e) ∙ vl.tail_cell in
          let it : c ≡ end_node max_val = cc in
          let large : equal cmp max_val key ≡ true =
            ap (λ n. equal cmp n.entry key) (sym it) ∙ eq in
          absurd (ground (arith, large, fits))
      | at_node a y rest e lo at ↦
          let (ea, ec') = rest_node a y rest e in
          let there : equal cmp y key ≡ true = ap (λ n. equal cmp n.entry key) (sym ec') ∙ eq in
          (y, rest, e ∙ ap (λ b. (b, y) ∷ rest) ea, ec', ground (arith, there))
    ]

    -- An entry that does not equal the key is above it.
    pub above : equal cmp c.entry key ≡ false → cmp key c.entry ≡ true
    unfolding equal
    above ne = ground (arith, ne, behind.1 c ec)
