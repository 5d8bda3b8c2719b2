-- ===== src/Memcached/Tokenizer.antt =====
-- minimemcached/utility/Tokenizer.h and Tokenizer.cc. The state is what stands between `beg_` and
-- `end_`; the separator test is the template's argument.
pub mod Words
use libeva.Base.{ℕ, zero, suc, Bool, true, false, List, [], ◌∷◌, if◌then◌else◌}

module _ {A : Type 0} (sep : A → Bool) where
  -- `while ( beg_ != end_ && sepFunc_( *beg_ ) ) ++beg_;`
  unfoldable pub skip : List A → List A
  skip [] = []
  skip (c ∷ rest) = if sep c then skip rest else c ∷ rest

  -- `for( ; it != end_ && !sepFunc_( *it ); ++it );`: what is passed, and what is left.
  unfoldable pub scan : List A → List A × List A
  scan [] = ([], [])
  scan (c ∷ rest) =
      let (token, left) = scan rest in if sep c then ([], c ∷ rest) else (c ∷ token, left)

  unfoldable pub has_more_token : List A → Bool × List A
  unfolding skip
  has_more_token t = let t' = skip t in (elim t' [ [] ↦ false | c ∷ rest ↦ true ], t')

  unfoldable pub next_token : List A → List A × List A
  unfolding skip scan
  next_token t = scan (skip t)

  -- `while ( tokenizer.hasMoreToken() ) tokenizer.nextToken();`, on fuel.
  pub tokens : ℕ → List A → List (List A)
  unfolding has_more_token next_token
  tokens zero t = []
  tokens (suc fuel) t =
      let (more, t') = has_more_token t in
      let (token, left) = next_token t' in
      elim more [ true ↦ token ∷ tokens fuel left | false ↦ [] ]
