-- ===== src/Ds/StealingQueue.antt =====
-- ds/StealingQueue/StealingQueue.h: a double-ended queue under one mutex, so that each operation is a
-- step of its own. The list has the front first; an operation that finds the queue empty returns
-- none and leaves it.
use libeva.Base.{
  ◌⊎◌, inl, inr, ◌≡◌, refl, ap, Bool, true, false, Option, none, some, List, [], ◌∷◌, ◌++◌,
}

module _ {ℓ} {T : Type ℓ} where
  unfoldable pub push_back : List T → T → List T
  push_back queue val = queue ++ (val ∷ [])

  unfoldable pub try_pop_back : List T → List T × Option T
  try_pop_back [] = ([], none)
  try_pop_back (x ∷ xs) =
      let rest = try_pop_back xs in
      elim rest.1 [ none ↦ ([], some x) | some y ↦ (x ∷ rest.0, some y) ]

  unfoldable pub try_steal_front : List T → List T × Option T
  try_steal_front [] = ([], none)
  try_steal_front (x ∷ xs) = (xs, some x)

  unfoldable pub empty : List T → Bool
  empty [] = true
  empty (x ∷ xs) = false

  pub pop-push : (queue : List T) (val : T) → try_pop_back (push_back queue val) ≡ (queue, some val)
  unfolding push_back try_pop_back
  pop-push [] val = refl
  pop-push (x ∷ xs) val =
      let e = pop-push xs val in rw e (ap (λ ys. (x ∷ ys, some val)) (ap (λ r. r.0) e))

  -- The last entry is what is popped.
  pub pop-cases :
      (queue : List T)
      → ((queue ≡ []) × (try_pop_back queue ≡ ([], none)))
        ⊎ ((ys : List T) × (y : T) × (queue ≡ ys ++ (y ∷ [])) × (try_pop_back queue ≡ (ys, some y)))
  unfolding try_pop_back
  pop-cases [] = inl (refl, refl)
  pop-cases (x ∷ xs) = inr (elim (pop-cases xs) [
    | inl (e, p) ↦ ([], x, ap (◌∷◌ x) e, rw p refl)
    | inr (ys, y, e, p) ↦ (x ∷ ys, y, ap (◌∷◌ x) e, rw p (ap (λ r. (x ∷ r.0, some y)) p))
  ])
