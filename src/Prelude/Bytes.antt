-- ===== src/Prelude/Bytes.antt =====
-- Byte strings as lists of numbers: equality, order, words and the integers that they spell.
use Prim.Native.Nat.{ℕ, zero, suc, ◌+◌, ◌*◌, ◌/◌, ◌%◌, ◌^◌, ◌≤◌, ◌<◌}
use mathlib.Core.Path.{◌≡◌, refl, ap, sym, ◌∙◌, subst}
use mathlib.Core.Logic.{◌↔◌}
use mathlib.Core.Bool.{Bool, true, false, ◌&&◌}
use mathlib.Core.List.{List, [], ◌∷◌, ◌++◌, reverse, reverse-cons}
use native.Mathlib.Nat.{pow-suc, mul-le-mul_right}
use native.Mathlib.Omega.{arith}
use solo_pool_rs.Prelude.Tests.{ltb, ◌==◌, if◌then◌else◌}
use solo_pool_rs.Prelude.Lists.{length}
use solo_pool_rs.Prelude.All.{All, All-append}

abbrev pub Bytes : Type 0
Bytes = List ℕ

abbrev pub IsByte : ℕ → Type 0
IsByte b = b < 256

-- `==` on byte slices, arrays and `str`.
unfoldable pub bytes_eq : Bytes → Bytes → Bool
bytes_eq [] [] = true
bytes_eq [] (b ∷ bs) = false
bytes_eq (a ∷ as') [] = false
bytes_eq (a ∷ as') (b ∷ bs) = a == b && bytes_eq as' bs

pub bytes_eq_refl : (a : Bytes) → bytes_eq a a ≡ true
unfolding bytes_eq
bytes_eq_refl [] = refl
bytes_eq_refl (x ∷ a) = ground (arith, bytes_eq_refl a)

pub eq_of_bytes_eq : (a b : Bytes) → bytes_eq a b ≡ true → a ≡ b
unfolding bytes_eq
eq_of_bytes_eq [] [] h = refl
eq_of_bytes_eq [] (y ∷ b) h = cc
eq_of_bytes_eq (x ∷ a) [] h = cc
eq_of_bytes_eq (x ∷ a) (y ∷ b) h = ground (arith, eq_of_bytes_eq a b)

pub bytes_eq_iff : (a b : Bytes) → (bytes_eq a b ≡ true) ↔ (a ≡ b)
bytes_eq_iff a b = (eq_of_bytes_eq a b, λ e. subst (λ x. bytes_eq a x ≡ true) e (bytes_eq_refl a))

-- `<=` on arrays of bytes: the lexicographic order.
unfoldable pub bytes_le : Bytes → Bytes → Bool
bytes_le [] ys = true
bytes_le (x ∷ xs) [] = false
bytes_le (x ∷ xs) (y ∷ ys) = if ltb x y then true else if x == y then bytes_le xs ys else false

-- The integer that bytes spell, lowest byte first, and highest byte first.
unfoldable pub value_le : Bytes → ℕ
value_le [] = 0
value_le (b ∷ bs) = b + 256 * value_le bs

unfoldable pub value_be : Bytes → ℕ
value_be [] = 0
value_be (b ∷ bs) = b * 256 ^ length bs + value_be bs

-- `x.to_le_bytes()` of an `n`-byte integer.
unfoldable pub to_le_bytes : ℕ → ℕ → Bytes
to_le_bytes zero x = []
to_le_bytes (suc n) x = (x % 256) ∷ to_le_bytes n (x / 256)

pub length-to_le_bytes : (n x : ℕ) → length (to_le_bytes n x) ≡ n
unfolding to_le_bytes
length-to_le_bytes zero x = refl
length-to_le_bytes (suc n) x = ap suc (length-to_le_bytes n (x / 256))

pub to_le_bytes-IsByte : (n x : ℕ) → All IsByte (to_le_bytes n x)
unfolding to_le_bytes
to_le_bytes-IsByte zero x = tt
to_le_bytes-IsByte (suc n) x = (omega arith, to_le_bytes-IsByte n (x / 256))

pub value_le-to_le_bytes : (n x : ℕ) → x < 256 ^ n → value_le (to_le_bytes n x) ≡ x
unfolding to_le_bytes value_le
value_le-to_le_bytes zero x h = omega arith
value_le-to_le_bytes (suc n) x h =
    omega (arith, value_le-to_le_bytes n (x / 256) (omega (arith, pow-suc 256 n)))

pub value_le-append : (a b : Bytes) → value_le (a ++ b) ≡ value_le a + 256 ^ length a * value_le b
unfolding value_le
value_le-append [] b = omega arith
value_le-append (x ∷ a) b =
    omega (arith, value_le-append a b, ap (λ (t : ℕ). t * value_le b) (pow-suc 256 (length a)))

pub value_be-append : (a b : Bytes) → value_be (a ++ b) ≡ value_be a * 256 ^ length b + value_be b
unfolding value_be
value_be-append [] b = omega arith
value_be-append (x ∷ a) b =
    omega (arith, value_be-append a b, ap (λ (t : ℕ). x * t) (pow_length a b))
  where
    pow_length : (xs ys : Bytes) → 256 ^ length (xs ++ ys) ≡ 256 ^ length xs * 256 ^ length ys
    pow_length [] ys = omega arith
    pow_length (z ∷ xs) ys = omega (
      arith,
      pow_length xs ys,
      pow-suc 256 (length (xs ++ ys)),
      ap (λ (t : ℕ). t * 256 ^ length ys) (pow-suc 256 (length xs)),
    )

pub value_be-lt : (a : Bytes) → All IsByte a → value_be a < 256 ^ length a
unfolding value_be
value_be-lt [] h = omega arith
value_be-lt (x ∷ a) h = grind (arith, value_be-lt a h.1, pow-suc 256 (length a))

-- Reading a string backwards swaps the two readings.
pub value_be-reverse : (a : Bytes) → value_be (reverse a) ≡ value_le a
unfolding value_le value_be
value_be-reverse [] = refl
value_be-reverse (x ∷ a) =
    ap value_be (reverse-cons x a)
    ∙ value_be-append (reverse a) (x ∷ [])
    ∙ omega (arith, value_be-reverse a)

pub reverse-IsByte : (a : Bytes) → All IsByte a → All IsByte (reverse a)
reverse-IsByte [] h = tt
reverse-IsByte (x ∷ a) h =
    subst (All IsByte) (sym (reverse-cons x a))
      (All-append IsByte (reverse a) (x ∷ []) (reverse-IsByte a h.1) (h.0, tt))

-- A smaller leading digit decides.
digit-lt : (x y u v w : ℕ) → x < y → u < w → x * w + u < y * w + v
digit-lt x y u v w h k = omega (arith, k, mul-le-mul_right w h)

-- On strings of one length the lexicographic order is the order of the integers spelled.
pub bytes_le_iff :
    (a b : Bytes)
    → length a ≡ length b
    → All IsByte a
    → All IsByte b
    → (bytes_le a b ≡ true) ↔ (value_be a ≤ value_be b)
unfolding bytes_le value_be
bytes_le_iff [] [] e ha hb = (λ _. omega arith, λ _. refl)
bytes_le_iff [] (y ∷ b) e ha hb = absurd (omega arith)
bytes_le_iff (x ∷ a) [] e ha hb = absurd (omega arith)
bytes_le_iff (x ∷ a) (y ∷ b) e ha hb =
    let p : 256 ^ length a ≡ 256 ^ length b = ap (λ (n : ℕ). 256 ^ n) (omega arith) in
    let rest = bytes_le_iff a b (omega arith) ha.1 hb.1 in
    ground (
      arith,
      p,
      ap (λ (t : ℕ). y * t) p,
      rest,
      value_be-lt a ha.1,
      value_be-lt b hb.1,
      digit-lt x y (value_be a) (value_be b) (256 ^ length a),
      digit-lt y x (value_be b) (value_be a) (256 ^ length a),
    )
