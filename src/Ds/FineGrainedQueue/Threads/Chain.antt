-- ===== src/Ds/FineGrainedQueue/Threads/Chain.antt =====
-- The nodes of the queue of ds/FineGrainedQueue/FineGrainedQueue.h, in their order, and those that
-- threads have for themselves.
use libeva.Base.{
  ℕ, suc, ◌≤◌, ◌≡◌, ◌≢◌, refl, sym, ap, subst, ◌∙◌, Option, some, List, [], ◌∷◌, ◌++◌, arith,
}
use libeva.Ds.FineGrainedQueue.{Cell}

-- Whom a node belongs to: it is the node of a number in the queue, or a thread has it.
pub data Owner : Type 0 where
  nobody : Owner
  part : ℕ → Owner
  held : ℕ → Owner

pub part_one : {o : Owner} {j k : ℕ} → o ≡ part j → o ≡ part k → j ≡ k
part_one {j = j} {k} e q = let one : part j ≡ part k = sym e ∙ q in cc

module _ {T : Type 0} where
  -- From `a` to `t` the nodes hold the entries, numbered from `i`.
  abbrev pub Linked : (ℕ → Option (Cell T)) → (ℕ → Owner) → ℕ → ℕ → List T → ℕ → Type 0
  Linked h own i a [] t = (a ≡ t) × (own t ≡ part i)
  Linked h own i a (x ∷ xs) t =
      (b : ℕ) × (h a ≡ some (record { entry = x; next = some b }))
      × (own a ≡ part i)
      × Linked h own (suc i) b xs t

  pub last_part :
      (h : ℕ → Option (Cell T)) (own : ℕ → Owner) (i a : ℕ) (xs : List T) (t : ℕ)
      → Linked h own i a xs t
      → (k : ℕ) × (own t ≡ part k) × (i ≤ k)
  last_part h own i a [] t (e, o) = (i, o, omega arith)
  last_part h own i a (x ∷ xs) t (b, e, o, l) =
      let (k, o', le) = last_part h own (suc i) b xs t l in (k, o', omega (arith, le))

  -- The head of a queue with an entry is not its tail.
  pub head-apart :
      (h : ℕ → Option (Cell T)) (own : ℕ → Owner) (i a b : ℕ) (xs : List T) (t : ℕ)
      → own a ≡ part i
      → Linked h own (suc i) b xs t
      → a ≢ t
  head-apart h own i a b xs t o l e =
      let (k, o', le) = last_part h own (suc i) b xs t l in
      let same : i ≡ k = part_one (subst (λ y. own y ≡ part i) e o) o' in omega (arith, same, le)

  -- The nodes before the last keep their links, and all their numbers.
  pub Linked-keep :
      (h h' : ℕ → Option (Cell T)) (own own' : ℕ → Owner) (i a : ℕ) (xs : List T) (t : ℕ)
      → ((b j : ℕ) → i ≤ j → own b ≡ part j → own' b ≡ part j)
      → ((b j : ℕ) → own b ≡ part j → b ≢ t → h' b ≡ h b)
      → Linked h own i a xs t
      → Linked h' own' i a xs t
  Linked-keep h h' own own' i a [] t keep same (e, o) = (e, keep t i (omega arith) o)
  Linked-keep h h' own own' i a (x ∷ xs) t keep same (b, e, o, l) = (
    b,
    same a i o (head-apart h own i a b xs t o l) ∙ e,
    keep a i (omega arith) o,
    Linked-keep h h' own own' (suc i) b xs t (λ c j le. keep c j (omega (arith, le))) same l,
  )

  -- The last node is filled, and the next one is the new last node.
  pub Linked-push :
      (h : ℕ → Option (Cell T)) (own : ℕ → Owner) (i a : ℕ) (xs : List T) (t n k : ℕ) (v : T)
      → h t ≡ some (record { entry = v; next = some n })
      → own t ≡ part k
      → own n ≡ part (suc k)
      → Linked h own i a xs t
      → Linked h own i a (xs ++ (v ∷ [])) n
  Linked-push h own i a [] t n k v e ot on (same, o) = (
    n,
    subst (λ y. h y ≡ some (record { entry = v; next = some n })) (sym same) e,
    subst (λ y. own y ≡ part i) (sym same) o,
    (refl, on ∙ ap (λ j. part (suc j)) (part_one ot o)),
  )
  Linked-push h own i a (x ∷ xs) t n k v e ot on (b, q, o, l) =
      (b, q, o, Linked-push h own (suc i) b xs t n k v e ot on l)
