-- ===== src/Net/Buffer/Search.antt =====
-- The searches of Buffer.h for a line end.
use libeva.Base.{
  ℕ, zero, suc, ◌<◌, ◌≡◌, refl, inl, inr, ◌&&◌, List, [], ◌∷◌, ◌++◌, Option, none, some, arith,
  get_elem?, length, Bool-cases, ◌==◌, ◌≢◌,
}
use mathlib.Core.Option
use libeva.Net.Buffer.{Buffer, peek, search_crlf, search_eol, find_crlf, find_eol}
use libeva.Net.Buffer.Valid.{IsValid, contents, readable_bytes_lem}

abbrev pub CrlfAt : List ℕ → ℕ → Type 0
CrlfAt l j = (get_elem? l j ≡ some b'\r') × (get_elem? l (suc j) ≡ some b'\n')

abbrev pub EolAt : List ℕ → ℕ → Type 0
EolAt l j = get_elem? l j ≡ some b'\n'

-- A search result: the first place that the predicate holds at, or none if it holds nowhere.
abbrev pub First : (ℕ → Type 0) → Option ℕ → Type 0
First At none = (j : ℕ) → ¬ At j
First At (some i) = At i × ((j : ℕ) → j < i → ¬ At j)

First-suc :
    (At : ℕ → Type 0) (r : Option ℕ)
    → ¬ At 0
    → First (λ j. At (suc j)) r
    → First At (Option.map suc r)
First-suc At none n f = nowhere
  where
    nowhere : (j : ℕ) → ¬ At j
    nowhere zero = n
    nowhere (suc j) = f j
First-suc At (some i) n f = (f.0, before)
  where
    before : (j : ℕ) → j < suc i → ¬ At j
    before zero h = n
    before (suc j) h = f.1 j (omega arith)

search_crlf-First : (l : List ℕ) → First (CrlfAt l) (search_crlf l)
unfolding search_crlf
search_crlf-First [] = λ j h. cc
search_crlf-First (c ∷ []) = one
  where
    one : (j : ℕ) → ¬ CrlfAt (c ∷ []) j
    one zero h = cc
    one (suc j) h = cc
search_crlf-First (c ∷ d ∷ rest) = elim (Bool-cases ((c == b'\r') && (d == b'\n'))) [
  | inl hit ↦ rw hit ((ground arith, ground arith), λ j h. absurd (omega arith))
  | inr miss ↦ rw miss (
      First-suc (CrlfAt (c ∷ d ∷ rest)) (search_crlf (d ∷ rest)) (λ h. ground arith)
        (search_crlf-First (d ∷ rest)))
]

search_eol-First : (l : List ℕ) → First (EolAt l) (search_eol l)
unfolding search_eol
search_eol-First [] = λ j h. cc
search_eol-First (c ∷ rest) = elim (Bool-cases (c == b'\n')) [
  | inl hit ↦ rw hit (ground arith, λ j h. absurd (omega arith))
  | inr miss ↦
      rw miss
        (First-suc (EolAt (c ∷ rest)) (search_eol rest) (λ h. ground arith) (search_eol-First rest))
]

-- findCRLF and findEOL of a valid buffer give the offset of the first line end in the contents,
-- and none exactly where there is none.
pub find-First :
    {b : Buffer}
    → IsValid b
    → First (CrlfAt (contents b)) (find_crlf b) × First (EolAt (contents b)) (find_eol b)
unfolding find_crlf find_eol contents
find-First {b} v =
    rw (readable_bytes_lem v) (search_crlf-First (contents b), search_eol-First (contents b))

-- No byte of the list is `c`.
abbrev pub Without : ℕ → List ℕ → Type 0
Without c [] = Unit
Without c (x ∷ xs) = (x ≢ c) × Without c xs

-- The end of a line with no '\r' of its own.
pub search_crlf-line :
    (line rest : List ℕ)
    → Without b'\r' line
    → search_crlf (line ++ (b'\r' ∷ b'\n' ∷ rest)) ≡ some (length line)
unfolding search_crlf
search_crlf-line [] rest h = refl
search_crlf-line (c ∷ []) rest h = ground arith
search_crlf-line (c ∷ d ∷ line) rest h = ground (arith, search_crlf-line (d ∷ line) rest h.1)

pub search_eol-line :
    (line rest : List ℕ)
    → Without b'\n' line
    → search_eol (line ++ (b'\n' ∷ rest)) ≡ some (length line)
unfolding search_eol
search_eol-line [] rest h = refl
search_eol-line (c ∷ line) rest h = ground (arith, search_eol-line line rest h.1)

pub search_crlf-Without : (l : List ℕ) → Without b'\r' l → search_crlf l ≡ none
unfolding search_crlf
search_crlf-Without [] h = refl
search_crlf-Without (c ∷ []) h = refl
search_crlf-Without (c ∷ d ∷ rest) h = ground (arith, search_crlf-Without (d ∷ rest) h.1)

pub find_lem :
    {b : Buffer}
    → IsValid b
    → (find_crlf b ≡ search_crlf (contents b)) × (find_eol b ≡ search_eol (contents b))
unfolding find_crlf find_eol peek contents
find_lem {b} v = rw (readable_bytes_lem v) (refl, refl)

-- A line end lies within the text.
abbrev pub Within : ℕ → Option ℕ → Type 0
Within n none = Unit
Within n (some at) = at < n

Within-suc : (n : ℕ) (o : Option ℕ) → Within n o → Within (suc n) (Option.map suc o)
Within-suc n none h = tt
Within-suc n (some at) h = omega arith

pub search_crlf-Within : (l : List ℕ) → Within (length l) (search_crlf l)
unfolding search_crlf
search_crlf-Within [] = tt
search_crlf-Within (c ∷ []) = tt
search_crlf-Within (c ∷ d ∷ rest) = elim (Bool-cases ((c == b'\r') && (d == b'\n'))) [
  | inl hit ↦ rw hit (omega arith)
  | inr miss ↦
      rw miss
        (Within-suc (length (d ∷ rest)) (search_crlf (d ∷ rest)) (search_crlf-Within (d ∷ rest)))
]

pub search_eol-Within : (l : List ℕ) → Within (length l) (search_eol l)
unfolding search_eol
search_eol-Within [] = tt
search_eol-Within (c ∷ rest) = elim (Bool-cases (c == b'\n')) [
  | inl hit ↦ rw hit (omega arith)
  | inr miss ↦ rw miss (Within-suc (length rest) (search_eol rest) (search_eol-Within rest))
]
