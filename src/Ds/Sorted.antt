-- ===== src/Ds/Sorted.antt =====
-- What a list of ds/LazyList promises: a sorted list of entries as a finite map, where an entry is
-- its own key. `cmp` is the strict order that the template takes as `Compare`.
use libeva.Base.{
  ◌≡◌, refl, ◌⊎◌, Bool, true, false, not, ◌&&◌, Option, none, some, List, [], ◌∷◌, arith,
  if◌then◌else◌,
}

-- The C++ requirement on `Compare`: a strict weak order.
pub record IsOrder {ℓ} {T : Type ℓ} (cmp : T → T → Bool) : Type ℓ where
  pub irrefl : (x : T) → cmp x x ≡ false
  pub trans : (x y z : T) → cmp x y ≡ true → cmp y z ≡ true → cmp x z ≡ true
  pub cotrans : (x y z : T) → cmp x z ≡ true → (cmp x y ≡ true) ⊎ (cmp y z ≡ true)

module _ {ℓ} {T : Type ℓ} (cmp : T → T → Bool) where
  abbrev pub same : T → T → Bool
  same x y = not (cmp x y) && not (cmp y x)

  unfoldable pub find : T → List T → Option T
  find key [] = none
  find key (x ∷ r) = if same x key then some x else find key r

  unfoldable pub insert : T → List T → List T
  insert key [] = key ∷ []
  insert key (x ∷ r) =
      if cmp x key then x ∷ insert key r else if cmp key x then key ∷ x ∷ r else key ∷ r

  unfoldable pub delete : T → List T → List T
  delete key [] = []
  delete key (x ∷ r) = if cmp x key then x ∷ delete key r else if cmp key x then x ∷ r else r

  abbrev pub Above : T → List T → Type 0
  Above x [] = Unit
  Above x (y ∷ r) = (cmp x y ≡ true) × Above x r

  abbrev pub Under : T → List T → Type 0
  Under m [] = Unit
  Under m (x ∷ r) = (cmp x m ≡ true) × Under m r

  abbrev pub IsSorted : List T → Type 0
  IsSorted [] = Unit
  IsSorted (x ∷ r) = Above x r × IsSorted r

  pub insert-Under :
      (m key : T) (xs : List T) → cmp key m ≡ true → Under m xs → Under m (insert key xs)
  unfolding insert
  insert-Under m key [] h u = (h, tt)
  insert-Under m key (x ∷ r) h u = ground (arith, insert-Under m key r h u.1)

  pub delete-Under : (m key : T) (xs : List T) → Under m xs → Under m (delete key xs)
  unfolding delete
  delete-Under m key [] u = tt
  delete-Under m key (x ∷ r) u = ground (arith, delete-Under m key r u.1)

  insert-Above : (b key : T) (xs : List T) → cmp b key ≡ true → Above b xs → Above b (insert key xs)
  unfolding insert
  insert-Above b key [] h u = (h, tt)
  insert-Above b key (x ∷ r) h u = ground (arith, insert-Above b key r h u.1)

  delete-Above : (b key : T) (xs : List T) → Above b xs → Above b (delete key xs)
  unfolding delete
  delete-Above b key [] u = tt
  delete-Above b key (x ∷ r) u = ground (arith, delete-Above b key r u.1)

  pub delete-IsSorted : (key : T) (xs : List T) → IsSorted xs → IsSorted (delete key xs)
  unfolding delete
  delete-IsSorted key [] s = tt
  delete-IsSorted key (x ∷ r) s =
      ground (arith, delete-IsSorted key r s.1, delete-Above x key r s.0)

module _ {ℓ} {T : Type ℓ} (cmp : T → T → Bool) (o : IsOrder cmp) where
  pub Above-mono : (x y : T) (r : List T) → cmp x y ≡ true → Above cmp y r → Above cmp x r
  Above-mono x y [] h a = tt
  Above-mono x y (z ∷ r) h a = (o.trans x y z h a.0, Above-mono x y r h a.1)

  -- An equal entry lies below the same entries.
  Above-same : (x y : T) (r : List T) → same cmp x y ≡ true → Above cmp y r → Above cmp x r
  Above-same x y [] h a = tt
  Above-same x y (z ∷ r) h a = (ground (arith, o.cotrans y x z a.0), Above-same x y r h a.1)

  pub insert-IsSorted : (key : T) (xs : List T) → IsSorted cmp xs → IsSorted cmp (insert cmp key xs)
  unfolding insert
  insert-IsSorted key [] s = (tt, tt)
  insert-IsSorted key (x ∷ r) s = ground (
    arith,
    insert-IsSorted key r s.1,
    insert-Above cmp x key r,
    Above-mono key x r,
    Above-same key x r,
  )

  same_trans : (x y z : T) → same cmp x y ≡ true → same cmp y z ≡ true → same cmp x z ≡ true
  same_trans x y z h k = ground (arith, o.cotrans x y z, o.cotrans z y x)

  pub same_sym : (x y : T) → same cmp x y ≡ true → same cmp y x ≡ true
  same_sym x y h = ground arith

  pub find-Above : (key : T) (xs : List T) → Above cmp key xs → find cmp key xs ≡ none
  unfolding find
  find-Above key [] a = refl
  find-Above key (x ∷ r) a = ground (arith, find-Above key r a.1)

  -- An insertion is seen under the keys equal to its own, and under no other.
  pub find-insert :
      (key j : T) (xs : List T)
      → find cmp j (insert cmp key xs) ≡ (if same cmp key j then some key else find cmp j xs)
  unfolding find insert
  find-insert key j [] = refl
  find-insert key j (x ∷ r) =
      ground (arith, find-insert key j r, o.cotrans x j key, o.cotrans key x j, o.cotrans j x key)

  -- A deletion takes away the keys equal to its own, and no other.
  pub find-delete :
      (key j : T) (xs : List T)
      → IsSorted cmp xs
      → find cmp j (delete cmp key xs) ≡ (if same cmp key j then none else find cmp j xs)
  unfolding find delete
  find-delete key j [] s = ground arith
  find-delete key j (x ∷ r) s = ground (
    arith,
    find-delete key j r s.1,
    o.cotrans x j key,
    o.cotrans key j x,
    o.cotrans x key j,
    o.cotrans j key x,
    o.cotrans j x key,
    o.cotrans key x j,
    find-Above j r,
    Above-mono j x r,
    Above-same j x r,
  )
