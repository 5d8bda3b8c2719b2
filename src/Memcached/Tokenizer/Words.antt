-- ===== src/Memcached/Tokenizer/Words.antt =====
-- What the loop over the tokens gives: the words between the separators.
use libeva.Base.{
  append-nil, subst, ℕ, zero, suc, ◌≤◌, ◌<◌, ◌≡◌, refl, sym, ap, ◌∙◌, inl, inr, Bool, true, false,
  List, [], ◌∷◌, ◌++◌, arith, ◌⊎◌, length, Bool-cases,
}
use libeva.Memcached.Tokenizer.{skip, scan, has_more_token, next_token, tokens}

module _ {A : Type 0} (sep : A → Bool) where
  -- A word: at least one character, and no separator.
  abbrev pub Plain : List A → Type 0
  Plain [] = Unit
  Plain (c ∷ w) = (sep c ≡ false) × Plain w

  abbrev pub IsWord : List A → Type 0
  IsWord [] = ⊥
  IsWord (c ∷ w) = Plain (c ∷ w)

  abbrev pub AllWords : List (List A) → Type 0
  AllWords [] = Unit
  AllWords (w ∷ ws) = IsWord w × AllWords ws

  abbrev pub Seps : List A → Type 0
  Seps [] = Unit
  Seps (c ∷ s) = (sep c ≡ true) × Seps s

  -- The text ends here or goes on with a separator.
  abbrev pub Stops : List A → Type 0
  Stops [] = Unit
  Stops (c ∷ t) = sep c ≡ true

  -- The words of a text: each is as long as it can be, and only separators stand around them.
  pub data Splits : List A → List (List A) → Type 0 where
    no_more : {t : List A} → Seps t → Splits t []
    one_more :
        {t rest : List A} {ws : List (List A)} (s w : List A)
        → Seps s
        → IsWord w
        → Stops rest
        → t ≡ s ++ (w ++ rest)
        → Splits rest ws
        → Splits t (w ∷ ws)

  -- What is passed over are separators.
  skip-Seps : (t : List A) → (s : List A) × Seps s × (t ≡ s ++ skip sep t)
  unfolding skip
  skip-Seps [] = ([], tt, refl)
  skip-Seps (c ∷ t) = elim (Bool-cases (sep c)) [
    | inl e ↦ let (s, seps, split) = skip-Seps t in rw e (c ∷ s, (e, seps), ap (◌∷◌ c) split)
    | inr e ↦ rw e ([], tt, refl)
  ]

  scan-split : (t : List A) → t ≡ (scan sep t).0 ++ (scan sep t).1
  unfolding scan
  scan-split [] = refl
  scan-split (c ∷ t) = elim (Bool-cases (sep c)) [
    | inl e ↦ rw e refl
    | inr e ↦ rw e (ap (◌∷◌ c) (scan-split t))
  ]

  scan-Stops : (t : List A) → Stops (scan sep t).1
  unfolding scan
  scan-Stops [] = tt
  scan-Stops (c ∷ t) = elim (Bool-cases (sep c)) [ inl e ↦ rw e e | inr e ↦ rw e (scan-Stops t) ]

  length-skip : (t : List A) → length (skip sep t) ≤ length t
  unfolding skip
  length-skip [] = omega arith
  length-skip (c ∷ t) = ground (arith, length-skip t)

  length-scan : (t : List A) → length (scan sep t).1 ≤ length t
  unfolding scan
  length-scan [] = omega arith
  length-scan (c ∷ t) = ground (arith, length-scan t)

  scan-Plain : (t : List A) → Plain (scan sep t).0
  unfolding scan
  scan-Plain [] = tt
  scan-Plain (c ∷ t) = elim (Bool-cases (sep c)) [
    | inl e ↦ rw e tt
    | inr e ↦ rw e (e, scan-Plain t)
  ]

  skip-cases :
      (t : List A)
      → (skip sep t ≡ []) ⊎ ((c : A) × (rest : List A) × (skip sep t ≡ c ∷ rest) × (sep c ≡ false))
  unfolding skip
  skip-cases [] = inl refl
  skip-cases (c ∷ t) = elim (Bool-cases (sep c)) [
    | inl e ↦ rw e (skip-cases t)
    | inr e ↦ inr (c, t, rw e refl, e)
  ]

  tokens-nil : (f : ℕ) (t : List A) → skip sep t ≡ [] → tokens sep (suc f) t ≡ []
  unfolding tokens has_more_token next_token
  tokens-nil f t e = rw (e, tokens) refl

  -- A round of the loop takes the next word.
  tokens-cons :
      (f : ℕ) (t : List A) (c : A) (rest : List A)
      → skip sep t ≡ c ∷ rest
      → sep c ≡ false
      → tokens sep (suc f) t ≡ (c ∷ (scan sep rest).0) ∷ tokens sep f (scan sep rest).1
  unfolding tokens skip scan
  tokens-cons f t c rest e n = ground (arith, e, n)

  -- With one unit of fuel more than characters the loop over the tokens ends by itself and gives
  -- the words of the text in order: nonempty, without separators, each up to the next separator or
  -- the end, with nothing but separators between them and at both ends.
  pub tokens-Splits : (fuel : ℕ) (t : List A) → length t < fuel → Splits t (tokens sep fuel t)
  tokens-Splits zero t h = absurd (omega arith)
  tokens-Splits (suc f) t h =
      let (s, seps, split) = skip-Seps t in
      elim (skip-cases t) [
        | inl e ↦
            let all : s ≡ t = sym (append-nil s) ∙ ap (λ l. s ++ l) (sym e) ∙ sym split in
            rw (tokens-nil f t e) (no_more (subst Seps all seps))
        | inr (c, rest, e, n) ↦
            let ih =
              tokens-Splits f (scan sep rest).1
                (omega (arith, length-scan rest, length-skip t, ap length e)) in
            rw (tokens-cons f t c rest e n) (
              one_more s (c ∷ (scan sep rest).0) seps (n, scan-Plain rest) (scan-Stops rest)
                (split ∙ ap (λ l. s ++ l) (e ∙ ap (◌∷◌ c) (scan-split rest))) ih)
      ]

  -- Each word followed by a separator.
  abbrev pub join : A → List (List A) → List A
  join s [] = []
  join s (w ∷ ws) = w ++ (s ∷ join s ws)

  scan-word :
      (w rest : List A) (s : A)
      → Plain w
      → sep s ≡ true
      → scan sep (w ++ (s ∷ rest)) ≡ (w, s ∷ rest)
  unfolding scan
  scan-word [] rest s p h = rw h refl
  scan-word (c ∷ w) rest s p h = rw (p.0, scan-word w rest s p.1 h) refl

  skip-sep : (s : A) (t : List A) → sep s ≡ true → skip sep (s ∷ t) ≡ skip sep t
  unfolding skip
  skip-sep s t h = rw h refl

  tokens-skip :
      (fuel : ℕ) (s : A) (t : List A) → sep s ≡ true → tokens sep fuel (s ∷ t) ≡ tokens sep fuel t
  unfolding tokens
  tokens-skip zero s t h = refl
  tokens-skip (suc f) s t h = elim (skip-cases t) [
    | inl e ↦ tokens-nil f (s ∷ t) (skip-sep s t h ∙ e) ∙ sym (tokens-nil f t e)
    | inr (c, rest, e, n) ↦
        tokens-cons f (s ∷ t) c rest (skip-sep s t h ∙ e) n ∙ sym (tokens-cons f t c rest e n)
  ]

  skip-plain : (c : A) (t : List A) → sep c ≡ false → skip sep (c ∷ t) ≡ c ∷ t
  unfolding skip
  skip-plain c t n = rw n refl

  -- The tokens of a text in which each of a list of words is followed by a separator are these
  -- words, with more fuel than there are words.
  pub tokens-join :
      (fuel : ℕ) (s : A) (ws : List (List A))
      → sep s ≡ true
      → AllWords ws
      → length ws < fuel
      → tokens sep fuel (join s ws) ≡ ws
  tokens-join zero s ws h a lt = absurd (omega arith)
  tokens-join (suc f) s [] h a lt = tokens-nil f [] (unfold skip in refl)
  tokens-join (suc f) s ([] ∷ ws) h a lt = absurd a.0
  tokens-join (suc f) s ((c ∷ w) ∷ ws) h a lt =
      let n = a.0.0 in
      let word = scan-word w (join s ws) s a.0.1 h in
      tokens-cons f _ c (w ++ (s ∷ join s ws)) (skip-plain c _ n) n
      ∙ ap (λ r. (c ∷ r.0) ∷ tokens sep f r.1) word
      ∙ ap (◌∷◌ (c ∷ w)) (tokens-skip f s (join s ws) h ∙ tokens-join f s ws h a.1 (omega arith))
