-- ===== src/Ds/KeySet.antt =====
-- The interface of the containers of entries: what ds/LazyList promises to ds/HashSet, and that to
-- minimemcached. A container stands for the entry that each key finds. add and get are total on the
-- keys that fit, and remove on those that are not there.
use libeva.Base.{
  ℕ, zero, suc, ◌<◌, ◌≡◌, refl, ap, ◌∙◌, inl, inr, Bool, true, Option, none, some, List, [], ◌∷◌,
  arith, get_elem?, set, set_same, false, replicate, Bool-cases, ◌==◌, if◌then◌else◌,
}
use libeva.Ds.Sorted.{same}
use libeva.Ds.LazyList.{◌>>=◌}
use libeva.Ds.LazyList.Refine.{found_or}

-- `Has s f`: in `s` each key `j` finds `f j`. `Ok` are the keys that are used, on which a hash
-- function has to agree with the order.
pub record KeySet {T S : Type 0} (cmp : T → T → Bool) (default max_val : T) (Ok : T → Type 0)
    (add remove : S → T → Option (S × Bool)) (get : S → T → Option T) : Type 1 where
  pub Has : S → (T → Option T) → Type 0
  pub added :
      (s : S) (f : T → Option T) (key : T)
      → Has s f
      → Ok key
      → cmp key max_val ≡ true
      → (s' : S) × (add s key ≡ some (s', true))
        × Has s' (λ j. if same cmp key j then some key else f j)
  pub removed :
      (s : S) (f : T → Option T) (key : T)
      → Has s f
      → Ok key
      → cmp key max_val ≡ true
      → f key ≡ none
      → remove s key ≡ some (s, false)
  pub got :
      (s : S) (f : T → Option T) (key : T)
      → Has s f
      → Ok key
      → cmp key max_val ≡ true
      → get s key ≡ some (found_or (f key) default)

-- An array of containers, and an operation on the one at an index.
unfoldable pub update_at {ℓ κ} :
    {S : Type ℓ} {R : Type κ} → List S → ℕ → (S → Option (S × R)) → Option (List S × R)
update_at ss i f = do s ← get_elem? ss i; r ← f s; some (set ss i r.0, r.1)

unfoldable pub read_at {ℓ κ} : {S : Type ℓ} {R : Type κ} → List S → ℕ → (S → Option R) → Option R
read_at ss i f = do s ← get_elem? ss i; f s

update_at_lem {ℓ κ} :
    {S : Type ℓ} {R : Type κ} (ss : List S) (i : ℕ) (f : S → Option (S × R)) (s s' : S) (r : R)
    → get_elem? ss i ≡ some s
    → f s ≡ some (s', r)
    → update_at ss i f ≡ some (set ss i s', r)
unfolding update_at
update_at_lem ss i f s s' r e e' = rw e (rw e' refl)

read_at_lem {ℓ κ} :
    {S : Type ℓ} {R : Type κ} (ss : List S) (i : ℕ) (f : S → Option R) (s : S)
    → get_elem? ss i ≡ some s
    → read_at ss i f ≡ f s
unfolding read_at
read_at_lem ss i f s e = rw e refl

get_elem?-set :
    {A : Type 0} (xs : List A) (i j : ℕ) (v x : A)
    → get_elem? xs i ≡ some x
    → get_elem? (set xs i v) j ≡ (if i == j then some v else get_elem? xs j)
get_elem?-set [] i j v x e = cc
get_elem?-set (y ∷ xs) zero zero v x e = ground arith
get_elem?-set (y ∷ xs) zero (suc j) v x e = ground arith
get_elem?-set (y ∷ xs) (suc i) zero v x e = ground arith
get_elem?-set (y ∷ xs) (suc i) (suc j) v x e = ground (arith, get_elem?-set xs i j v x e)

get_elem?-replicate : {A : Type 0} (n i : ℕ) (a : A) → i < n → get_elem? (replicate n a) i ≡ some a
get_elem?-replicate zero i a h = absurd (omega arith)
get_elem?-replicate (suc n) zero a h = refl
get_elem?-replicate (suc n) (suc i) a h = get_elem?-replicate n i a (omega arith)

module _ {T S : Type 0} {cmp : T → T → Bool} {default max_val : T} {Ok : T → Type 0}
    {add remove : S → T → Option (S × Bool)} {get : S → T → Option T}
    (K : KeySet cmp default max_val Ok add remove get) (idx : T → ℕ) (n : ℕ)
    (in_range : (j : T) → idx j < n)
    (respects : (i j : T) → Ok i → Ok j → same cmp i j ≡ true → idx i ≡ idx j) where
  -- What an array of `n` containers holds, where a key belongs to the one at its index.
  pub record HasAt (ss : List S) (f : T → Option T) (i : ℕ) : Type 0 where
    pub here : S
    pub finds : T → Option T
    pub is_here : get_elem? ss i ≡ some here
    pub has : K.Has here finds
    pub agrees : (j : T) → Ok j → idx j ≡ i → finds j ≡ f j

  pub record TableHas (ss : List S) (f : T → Option T) : Type 0 where
    pub each : (i : ℕ) → i < n → HasAt ss f i

  -- A change of the one container at the key's index changes what the table finds there.
  changed :
      (ss : List S) (f : T → Option T) (key : T) (v : Option T) (s' : S)
      → Ok key
      → (t : TableHas ss f)
      → K.Has s' (λ j. if same cmp key j then v else (t.each (idx key) (in_range key)).finds j)
      → TableHas (set ss (idx key) s') (λ j. if same cmp key j then v else f j)
  changed ss f key v s' ok t h = record { each = at }
    where
      old : HasAt ss f (idx key)
      old = t.each (idx key) (in_range key)

      at : (i : ℕ) → i < n → HasAt (set ss (idx key) s') (λ j. if same cmp key j then v else f j) i
      at i lt = elim (Bool-cases (idx key == i)) [
        | inl e ↦ record {
          here = s';
          finds = λ j. if same cmp key j then v else old.finds j;
          is_here = get_elem?-set ss (idx key) i s' old.here old.is_here ∙ rw e refl;
          has = h;
          agrees = λ j okj ej. ground (arith, old.agrees j okj);
        }
        | inr ne ↦
            let other = t.each i lt in
            record {
              here = other.here;
              finds = other.finds;
              is_here = get_elem?-set ss (idx key) i s' old.here old.is_here ∙ rw ne other.is_here;
              has = other.has;
              agrees = λ j okj ej. ground (arith, other.agrees j okj ej, respects key j ok okj);
            }
      ]

  pub table_added :
      (ss : List S) (f : T → Option T) (key : T)
      → TableHas ss f
      → Ok key
      → cmp key max_val ≡ true
      → (ss' : List S) × (update_at ss (idx key) (λ s. add s key) ≡ some (ss', true))
        × TableHas ss' (λ j. if same cmp key j then some key else f j)
  table_added ss f key t ok fits =
      let old = t.each (idx key) (in_range key) in
      let (s', e, h) = K.added old.here old.finds key old.has ok fits in
      (
        set ss (idx key) s',
        update_at_lem ss (idx key) _ old.here s' true old.is_here e,
        changed ss f key (some key) s' ok t h,
      )

  pub table_removed :
      (ss : List S) (f : T → Option T) (key : T)
      → TableHas ss f
      → Ok key
      → cmp key max_val ≡ true
      → f key ≡ none
      → update_at ss (idx key) (λ s. remove s key) ≡ some (ss, false)
  table_removed ss f key t ok fits away =
      let old = t.each (idx key) (in_range key) in
      let e = K.removed old.here old.finds key old.has ok fits (old.agrees key ok refl ∙ away) in
      update_at_lem ss (idx key) _ old.here old.here false old.is_here e
      ∙ ap (λ r. some (r, false)) (set_same ss (idx key) old.here old.is_here)

  pub table_got :
      (ss : List S) (f : T → Option T) (key : T)
      → TableHas ss f
      → Ok key
      → cmp key max_val ≡ true
      → read_at ss (idx key) (λ s. get s key) ≡ some (found_or (f key) default)
  table_got ss f key t ok fits =
      let old = t.each (idx key) (in_range key) in
      read_at_lem ss (idx key) _ old.here old.is_here
      ∙ K.got old.here old.finds key old.has ok fits
      ∙ ap (λ o. some (found_or o default)) (old.agrees key ok refl)

  -- Where the containers cannot serve a key, neither can the table.
  pub table_past :
      (ss : List S) (f : T → Option T) (key : T)
      → TableHas ss f
      → (P : S → Type 0)
      → ((s : S) (f : T → Option T)
          → K.Has s f
          → P s × (add s key ≡ none) × (remove s key ≡ none) × (get s key ≡ none))
      → ((s : S) × (get_elem? ss (idx key) ≡ some s) × P s)
        × (update_at ss (idx key) (λ s. add s key) ≡ none)
        × (update_at ss (idx key) (λ s. remove s key) ≡ none)
        × (read_at ss (idx key) (λ s. get s key) ≡ none)
  unfolding update_at
  table_past ss f key t P past =
      let old = t.each (idx key) (in_range key) in
      let (p, a, r, g) = past old.here old.finds old.has in
      (
        (old.here, old.is_here, p),
        rw old.is_here (rw a refl),
        rw old.is_here (rw r refl),
        read_at_lem ss (idx key) (λ s. get s key) old.here old.is_here ∙ g,
      )

  -- An array of containers is a container.
  abbrev pub table :
      KeySet cmp default max_val Ok
        (λ ss key. update_at ss (idx key) (λ s. add s key))
        (λ ss key. update_at ss (idx key) (λ s. remove s key))
        (λ ss key. read_at ss (idx key) (λ s. get s key))
  table = record { Has = TableHas; added = table_added; removed = table_removed; got = table_got }

  -- An array of copies of a container that holds nothing.
  pub replicate-TableHas : (s : S) → K.Has s (λ j. none) → TableHas (replicate n s) (λ j. none)
  replicate-TableHas s h = record {
    each = λ i lt. record {
      here = s;
      finds = λ j. none;
      is_here = get_elem?-replicate n i s lt;
      has = h;
      agrees = λ j okj e. refl;
    };
  }
