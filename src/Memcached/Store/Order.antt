-- ===== src/Memcached/Store/Order.antt =====
-- The order of the keys.
use libeva.Base.{
  ℕ, ◌≡◌, refl, sym, ap, ap₂, ◌∙◌, inl, inr, true, false, Option, none, some, List, [], ◌∷◌, arith,
  ◌⊎◌,
}
use libeva.Ds.Sorted.{IsOrder, same}
use libeva.Memcached.Entry.{Entry, key, hash_str}
use libeva.Memcached.Store.{lt_bytes, cmp, hash}

lt_bytes_irrefl : (x : List ℕ) → lt_bytes x x ≡ false
unfolding lt_bytes
lt_bytes_irrefl [] = refl
lt_bytes_irrefl (c ∷ x) = ground (arith, lt_bytes_irrefl x)

lt_bytes_trans : (x y z : List ℕ) → lt_bytes x y ≡ true → lt_bytes y z ≡ true → lt_bytes x z ≡ true
unfolding lt_bytes
lt_bytes_trans x [] z h k = ground arith
lt_bytes_trans x (d ∷ y) [] h k = ground arith
lt_bytes_trans [] (d ∷ y) (e ∷ z) h k = refl
lt_bytes_trans (c ∷ x) (d ∷ y) (e ∷ z) h k = ground (arith, lt_bytes_trans x y z)

lt_bytes-cotrans :
    (x y z : List ℕ) → lt_bytes x z ≡ true → (lt_bytes x y ≡ true) ⊎ (lt_bytes y z ≡ true)
unfolding lt_bytes
lt_bytes-cotrans x y [] h = ground arith
lt_bytes-cotrans x [] (e ∷ z) h = inr refl
lt_bytes-cotrans [] (d ∷ y) (e ∷ z) h = inl refl
lt_bytes-cotrans (c ∷ x) (d ∷ y) (e ∷ z) h = ground (arith, lt_bytes-cotrans x y z)

pub same_refl : (x : List ℕ) → same lt_bytes x x ≡ true
same_refl x = rw (lt_bytes_irrefl x) refl

-- Bytes of which neither is less are equal.
pub lt_bytes-connected : (x y : List ℕ) → same lt_bytes x y ≡ true → x ≡ y
unfolding lt_bytes
lt_bytes-connected [] [] h = refl
lt_bytes-connected [] (d ∷ y) h = ground arith
lt_bytes-connected (c ∷ x) [] h = ground arith
lt_bytes-connected (c ∷ x) (d ∷ y) h =
    let e : c ≡ d = ground arith in
    let e' : same lt_bytes x y ≡ true = ground arith in ap₂ (◌∷◌) e (lt_bytes-connected x y e')

-- `EntryPtrCmp` is a strict weak order.
pub cmp-IsOrder : IsOrder cmp
unfolding cmp
cmp-IsOrder = record { irrefl = irrefl; trans = trans; cotrans = cotrans }
  where
    irrefl : (x : Option Entry) → cmp x x ≡ false
    irrefl none = refl
    irrefl (some e) = lt_bytes_irrefl (key e)

    trans : (x y z : Option Entry) → cmp x y ≡ true → cmp y z ≡ true → cmp x z ≡ true
    trans x none z h k = ground arith
    trans x (some f) none h k = ground arith
    trans none (some f) (some g) h k = refl
    trans (some e) (some f) (some g) h k = lt_bytes_trans (key e) (key f) (key g) h k

    cotrans : (x y z : Option Entry) → cmp x z ≡ true → (cmp x y ≡ true) ⊎ (cmp y z ≡ true)
    cotrans x y none h = ground arith
    cotrans x none (some g) h = inr refl
    cotrans none (some f) (some g) h = inl refl
    cotrans (some e) (some f) (some g) h = lt_bytes-cotrans (key e) (key f) (key g) h

-- An entry, not null, with the hash of its key.
abbrev pub Hashed : Option Entry → Type 0
Hashed none = ⊥
Hashed (some e) = e.hash ≡ hash_str (key e)

-- Equal keys have equal hashes.
pub hash-respects :
    (i j : Option Entry) → Hashed i → Hashed j → same cmp i j ≡ true → hash i ≡ hash j
unfolding cmp
hash-respects none j a b h = absurd a
hash-respects (some e) none a b h = absurd b
hash-respects (some e) (some f) a b h =
    a ∙ ap hash_str (lt_bytes-connected (key e) (key f) h) ∙ sym b
