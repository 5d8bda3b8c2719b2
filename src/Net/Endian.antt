-- ===== src/Net/Endian.antt =====
-- The byte order of integers: the memory of an integer on a little-endian host, and the byte swaps
-- that <endian.h> gives such a host as htobe64, htobe32, htobe16, be64toh, be32toh and be16toh.
use libeva.Base.{
  ℕ, zero, suc, ◌+◌, ◌*◌, ◌/◌, ◌%◌, ◌<◌, ◌≡◌, refl, ap, ◌∙◌, List, [], ◌∷◌, ◌++◌, reverse, arith,
  length, length-reverse,
}
use mathlib.Core.List.{reverse-cons, reverse-reverse}

-- The memory of an `n`-byte integer, least significant byte first.
unfoldable pub le_bytes : ℕ → ℕ → List ℕ
le_bytes zero x = []
le_bytes (suc n) x = (x % 256) ∷ le_bytes n (x / 256)

unfoldable pub of_le : List ℕ → ℕ
of_le [] = 0
of_le (b ∷ bs) = b + 256 * of_le bs

-- Network order: most significant byte first.
pub be_bytes : ℕ → ℕ → List ℕ
be_bytes n x = reverse (le_bytes n x)

-- htobe and betoh of `n` bytes.
unfoldable pub swap_bytes : ℕ → ℕ → ℕ
swap_bytes n x = of_le (reverse (le_bytes n x))

-- The number of values of `n` bytes.
abbrev pub values : ℕ → ℕ
values zero = 1
values (suc n) = 256 * values n

abbrev pub AllBytes : List ℕ → Type 0
AllBytes [] = Unit
AllBytes (b ∷ bs) = (b < 256) × AllBytes bs

AllBytes-append : (xs ys : List ℕ) → AllBytes xs → AllBytes ys → AllBytes (xs ++ ys)
AllBytes-append [] ys hx hy = hy
AllBytes-append (x ∷ xs) ys hx hy = (hx.0, AllBytes-append xs ys hx.1 hy)

AllBytes-reverse : (xs : List ℕ) → AllBytes xs → AllBytes (reverse xs)
AllBytes-reverse [] h = tt
AllBytes-reverse (x ∷ xs) h =
    rw (reverse-cons x xs)
      (AllBytes-append (reverse xs) (x ∷ []) (AllBytes-reverse xs h.1) (h.0, tt))

le_bytes-AllBytes : (n x : ℕ) → AllBytes (le_bytes n x)
unfolding le_bytes
le_bytes-AllBytes zero x = tt
le_bytes-AllBytes (suc n) x = (omega arith, le_bytes-AllBytes n (x / 256))

pub length-le_bytes : (n x : ℕ) → length (le_bytes n x) ≡ n
unfolding le_bytes
length-le_bytes zero x = refl
length-le_bytes (suc n) x = ap suc (length-le_bytes n (x / 256))

pub of_le-le_bytes : (n x : ℕ) → x < values n → of_le (le_bytes n x) ≡ x
unfolding le_bytes of_le
of_le-le_bytes zero x h = omega arith
of_le-le_bytes (suc n) x h = omega (arith, of_le-le_bytes n (x / 256) (omega arith))

le_bytes-of_le : (n : ℕ) (bs : List ℕ) → AllBytes bs → length bs ≡ n → le_bytes n (of_le bs) ≡ bs
unfolding le_bytes of_le
le_bytes-of_le zero [] h e = refl
le_bytes-of_le zero (b ∷ bs) h e = absurd (omega arith)
le_bytes-of_le (suc n) [] h e = absurd (omega arith)
le_bytes-of_le (suc n) (b ∷ bs) h e =
    let lo : (b + 256 * of_le bs) % 256 ≡ b = omega arith in
    let hi : (b + 256 * of_le bs) / 256 ≡ of_le bs = omega arith in
    rw (lo, hi) (ap (◌∷◌ b) (le_bytes-of_le n bs h.1 (omega arith)))

-- The memory of a swapped integer is the integer in network order.
pub le_bytes-swap_bytes : (n x : ℕ) → le_bytes n (swap_bytes n x) ≡ be_bytes n x
unfolding swap_bytes be_bytes
le_bytes-swap_bytes n x =
    le_bytes-of_le n (reverse (le_bytes n x)) (AllBytes-reverse _ (le_bytes-AllBytes n x))
      (length-reverse (le_bytes n x) ∙ length-le_bytes n x)

pub length-be_bytes : (n x : ℕ) → length (be_bytes n x) ≡ n
unfolding be_bytes
length-be_bytes n x = length-reverse (le_bytes n x) ∙ length-le_bytes n x

-- An integer that is read from its bytes in network order and swapped is the integer.
pub swap_bytes-be_bytes : (n x : ℕ) → x < values n → swap_bytes n (of_le (be_bytes n x)) ≡ x
unfolding swap_bytes be_bytes
swap_bytes-be_bytes n x h =
    ap (λ l. of_le (reverse l)) (le_bytes-swap_bytes n x)
    ∙ ap of_le (reverse-reverse (le_bytes n x))
    ∙ of_le-le_bytes n x h
