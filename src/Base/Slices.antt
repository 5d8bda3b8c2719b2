-- ===== src/Base/Slices.antt =====
-- Windows of a byte array, and the writes that `std::copy` and `memmove` make into it.
use Prim.Native.Nat.{ℕ, zero, suc, ◌+◌, ◌-◌, ◌≤◌}
use mathlib.Core.Path.{◌≡◌, refl, sym, ap, ◌∙◌}
use mathlib.Core.List.{List, [], ◌∷◌, ◌++◌}
use native.Mathlib.Omega.{arith}
use libeva.Base.Lists.{length, take, drop, length-take, length-drop, take-nil, drop-nil, drop-drop}

module _ {ℓ} {A : Type ℓ} where
  -- The `n` elements from index `r` on.
  abbrev pub slice : ℕ → ℕ → List A → List A
  slice r n xs = take n (drop r xs)

  -- Writes `ds` over the elements from index `i` on; what would fall behind the end is dropped.
  unfoldable pub copy_at : List A → ℕ → List A → List A
  copy_at [] i ds = []
  copy_at (x ∷ xs) zero [] = x ∷ xs
  copy_at (x ∷ xs) zero (d ∷ ds) = d ∷ copy_at xs zero ds
  copy_at (x ∷ xs) (suc i) ds = x ∷ copy_at xs i ds

  pub length-copy_at : (xs : List A) (i : ℕ) (ds : List A) → length (copy_at xs i ds) ≡ length xs
  unfolding copy_at
  length-copy_at [] i ds = refl
  length-copy_at (x ∷ xs) zero [] = refl
  length-copy_at (x ∷ xs) zero (d ∷ ds) = ap suc (length-copy_at xs zero ds)
  length-copy_at (x ∷ xs) (suc i) ds = ap suc (length-copy_at xs i ds)

  pub length-slice : (r n : ℕ) (xs : List A) → r + n ≤ length xs → length (slice r n xs) ≡ n
  length-slice r n xs h = omega (arith, length-take n (drop r xs), length-drop r xs)

  pub take-copy_at :
      (xs ds : List A) → length ds ≤ length xs → take (length ds) (copy_at xs 0 ds) ≡ ds
  unfolding copy_at
  take-copy_at [] [] h = refl
  take-copy_at [] (d ∷ ds) h = absurd (omega arith)
  take-copy_at (x ∷ xs) [] h = refl
  take-copy_at (x ∷ xs) (d ∷ ds) h = ap (◌∷◌ d) (take-copy_at xs ds (omega arith))

  -- A write leaves what stands before it.
  pub take-copy_at_before :
      (xs ds : List A) (n i : ℕ) → n ≤ i → take n (copy_at xs i ds) ≡ take n xs
  unfolding copy_at
  take-copy_at_before [] ds n i h = refl
  take-copy_at_before (x ∷ xs) ds zero i h = refl
  take-copy_at_before (x ∷ xs) ds (suc n) zero h = absurd (omega arith)
  take-copy_at_before (x ∷ xs) ds (suc n) (suc i) h =
      ap (◌∷◌ x) (take-copy_at_before xs ds n i (omega arith))

  pub slice-nil : (r n : ℕ) → slice r n [] ≡ []
  slice-nil r n = rw (drop-nil {A = A} r) (take-nil n)

  -- What is written behind a window extends it.
  pub slice-copy_at_end :
      (xs ds : List A) (r n w m : ℕ)
      → w ≡ r + n
      → m ≡ n + length ds
      → w + length ds ≤ length xs
      → slice r m (copy_at xs w ds) ≡ slice r n xs ++ ds
  unfolding copy_at
  slice-copy_at_end [] [] r n w m ew em h = slice-nil r m ∙ sym (ap (λ l. l ++ []) (slice-nil r n))
  slice-copy_at_end [] (d ∷ ds) r n w m ew em h = absurd (omega arith)
  slice-copy_at_end (x ∷ xs) ds (suc r) n zero m ew em h = absurd (omega arith)
  slice-copy_at_end (x ∷ xs) ds (suc r) n (suc w) m ew em h =
      slice-copy_at_end xs ds r n w m (omega arith) em (omega arith)
  slice-copy_at_end (x ∷ xs) ds zero zero w m ew em h =
      let e : w ≡ 0 = omega arith in
      let e' : m ≡ length ds = omega arith in rw (e, e') (take-copy_at (x ∷ xs) ds (omega arith))
  slice-copy_at_end (x ∷ xs) ds zero (suc n) zero m ew em h = absurd (omega arith)
  slice-copy_at_end (x ∷ xs) ds zero (suc n) (suc w) m ew em h =
      let e : m ≡ suc (n + length ds) = omega arith in
      rw e (
        ap (◌∷◌ x)
          (slice-copy_at_end xs ds zero n w (n + length ds) (omega arith) refl (omega arith)))

  -- A window that begins at a write begins with what was written.
  pub slice-copy_at_start :
      (xs ds : List A) (r n m : ℕ)
      → m ≡ length ds + n
      → r + m ≤ length xs
      → slice r m (copy_at xs r ds) ≡ ds ++ slice (r + length ds) n xs
  unfolding copy_at
  slice-copy_at_start [] [] r n m em h = slice-nil r m ∙ sym (slice-nil (r + 0) n)
  slice-copy_at_start [] (d ∷ ds) r n m em h = absurd (omega arith)
  slice-copy_at_start (x ∷ xs) ds (suc r) n m em h =
      let e : suc r + length ds ≡ suc (r + length ds) = omega arith in
      rw e (slice-copy_at_start xs ds r n m em (omega arith))
  slice-copy_at_start (x ∷ xs) [] zero n m em h = let e : m ≡ n = omega arith in rw e refl
  slice-copy_at_start (x ∷ xs) (d ∷ ds) zero n m em h =
      let e : m ≡ suc (length ds + n) = omega arith in
      let e' : 0 + suc (length ds) ≡ suc (0 + length ds) = omega arith in
      rw (e, e') (ap (◌∷◌ d) (slice-copy_at_start xs ds zero n (length ds + n) refl (omega arith)))

  pub drop-take : (k n : ℕ) (xs : List A) → drop k (take (k + n) xs) ≡ take n (drop k xs)
  drop-take zero n xs = ap (λ m. take m xs) (omega arith)
  drop-take (suc k) n [] = ap (drop (suc k)) (take-nil (suc k + n)) ∙ sym (take-nil n)
  drop-take (suc k) n (x ∷ xs) =
      let e : suc k + n ≡ suc (k + n) = omega arith in rw e (drop-take k n xs)

  pub take-take : (k n : ℕ) (xs : List A) → k ≤ n → take k (take n xs) ≡ take k xs
  take-take zero n xs h = refl
  take-take (suc k) zero xs h = absurd (omega arith)
  take-take (suc k) (suc n) [] h = refl
  take-take (suc k) (suc n) (x ∷ xs) h = ap (◌∷◌ x) (take-take k n xs (omega arith))

  -- A window lies in the front part of an array that grows at its end.
  pub slice-append :
      (r n : ℕ) (xs ys : List A) → r + n ≤ length xs → slice r n (xs ++ ys) ≡ slice r n xs
  slice-append r zero xs ys h = refl
  slice-append zero (suc n) [] ys h = absurd (omega arith)
  slice-append zero (suc n) (x ∷ xs) ys h = ap (◌∷◌ x) (slice-append zero n xs ys (omega arith))
  slice-append (suc r) (suc n) [] ys h = absurd (omega arith)
  slice-append (suc r) (suc n) (x ∷ xs) ys h = slice-append r (suc n) xs ys (omega arith)

  -- A window shortened from its front.
  pub slice-shift :
      (r k n : ℕ) (xs : List A) → k ≤ n → slice (r + k) (n - k) xs ≡ drop k (slice r n xs)
  slice-shift r k n xs h =
      ap (take (n - k)) (sym (drop-drop k r xs))
      ∙ sym (drop-take k (n - k) (drop r xs))
      ∙ ap (λ m. drop k (take m (drop r xs))) {x = k + (n - k)} (omega arith)
