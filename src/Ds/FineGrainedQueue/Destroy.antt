-- ===== src/Ds/FineGrainedQueue/Destroy.antt =====
-- What the destructor of ds/FineGrainedQueue/FineGrainedQueue.h frees.
use libeva.Base.{
  inl, inr, ◌⊎◌, ℕ, zero, suc, ◌<◌, ◌≡◌, refl, sym, subst, ap, ◌∙◌, Option, none, some, List, [],
  ◌∷◌, arith, length, one_some, some_not_none,
}
use libeva.Ds.FineGrainedQueue.{Cell, FineGrainedQueue, put, free_all}
use libeva.Ds.FineGrainedQueue.Fifo.{Linked, Contains, Linked-le, Linked-free}

-- The links lead from one address to another.
pub data Leads {T : Type 0} (h : ℕ → Option (Cell T)) : ℕ → ℕ → Type 0 where
  itself : {a : ℕ} → Leads h a a
  onward : {a b c : ℕ} (n : Cell T) → h a ≡ some n → n.next ≡ some b → Leads h b c → Leads h a c

module _ {T : Type 0} where
  Leads-next :
      (h : ℕ → Option (Cell T)) {a c : ℕ} (n : Cell T)
      → h a ≡ some n
      → Leads h a c
      → (c ≡ a) ⊎ ((b : ℕ) × (n.next ≡ some b) × Leads h b c)
  Leads-next h n e itself = inl refl
  Leads-next h n e (onward {b = b} n' e' nx k) = inr (b, ap (λ y. y.next) (one_some e e') ∙ nx, k)

  Leads-last :
      (h : ℕ → Option (Cell T)) {a c : ℕ} (n : Cell T)
      → h a ≡ some n
      → n.next ≡ none
      → Leads h a c
      → c ≡ a
  Leads-last h n e end k = elim (Leads-next h n e k) [
    | inl same ↦ same
    | inr (b, nx, k') ↦ some_not_none nx end
  ]

  -- A node before the others does not change where they lead.
  Leads-free :
      (xs : List T) (h : ℕ → Option (Cell T)) (a c t b : ℕ) (dummy : Cell T)
      → c < a
      → Linked h a xs t
      → h t ≡ some dummy
      → dummy.next ≡ none
      → Leads h a b
      → Leads (put h c none) a b
  Leads-free [] h a c t b dummy lt l at end k =
      let same : b ≡ a = Leads-last h dummy (ap h l ∙ at) end k in
      subst (λ y. Leads (put h c none) a y) (sym same) itself
  Leads-free (x ∷ xs) h a c t b dummy lt (a', q, up, l) at end k =
      elim (Leads-next h (record { entry = x; next = some a' }) q k) [
        | inl same ↦ subst (λ y. Leads (put h c none) a y) (sym same) itself
        | inr (d, nx, k') ↦
            onward (record { entry = x; next = some a' }) (ground (arith, q, lt)) refl
              (Leads-free xs h a' c t b dummy (omega arith) l at end
                (subst (λ y. Leads h y b) (sym (one_some refl nx)) k'))
      ]

  free_rest :
      (xs : List T) (h : ℕ → Option (Cell T)) (a t fuel : ℕ) (dummy : Cell T)
      → Linked h a xs t
      → h t ≡ some dummy
      → dummy.next ≡ none
      → length xs < fuel
      → (h' : ℕ → Option (Cell T)) × (free_all fuel h (some a) ≡ some h')
        × ((b : ℕ) → Leads h a b → h' b ≡ none)
        × ((b : ℕ) → b < a → h' b ≡ h b)
  unfolding free_all
  free_rest xs h a t zero dummy l at end lt = absurd (omega arith)
  free_rest [] h a t (suc fuel) dummy l at end lt = (
    put h a none,
    rw (ap h l ∙ at) (rw end refl),
    λ b leads. ground (arith, Leads-last h dummy (ap h l ∙ at) end leads),
    λ b less. ground (arith, less),
  )
  free_rest (x ∷ xs) h a t (suc fuel) dummy (b, e, up, l) at end lt =
      let le' = Linked-le h b xs t l in
      let (h', e', all, kept) =
        free_rest xs (put h a none) b t fuel dummy (Linked-free h a b xs t up l)
          (ground (arith, at, le', up)) end (omega arith) in
      (
        h',
        rw e e',
        λ c leads. elim (Leads-next h (record { entry = x; next = some b }) e leads) [
          | inl same ↦ kept c (omega (arith, same, up)) ∙ ground (arith, same)
          | inr (d, nx, k) ↦ all c (
              Leads-free xs h b a t c dummy up l at end
                (subst (λ y. Leads h y c) (sym (one_some refl nx)) k))
        ],
        λ c less. kept c (omega (arith, less, up)) ∙ ground (arith, less),
      )

  -- The destructor of a queue returns within a round for each entry and one for the last node. It
  -- frees every node that the head leads to, and none of them twice.
  pub free_all-Frees :
      (q : FineGrainedQueue T) (xs : List T) (fuel : ℕ)
      → Contains q xs
      → length xs < fuel
      → (h' : ℕ → Option (Cell T)) × (free_all fuel q.heap (some q.head) ≡ some h')
        × ((b : ℕ) → Leads q.heap q.head b → h' b ≡ none)
  free_all-Frees q xs fuel c lt =
      let (h', e, all, kept) =
        free_rest xs q.heap q.head q.tail fuel c.dummy c.linked c.at_tail c.dummy_end lt in
      (h', e, all)
