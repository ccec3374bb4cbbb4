-- ===== src/Decimal.antt =====
-- `std::to_string` and `std::stoi`, as the sources use them: decimal text of the numbers in messages.
use kierki_sik.Prelude.{
  ℕ, zero, suc, ◌+◌, ◌-◌, ◌*◌, ◌/◌, ◌%◌, ◌≤◌, ◌<◌, ◌≡◌, refl, ◌≢◌, length, [], ◌∷◌, ◌++◌, Bool,
  true, ◌&&◌, Option, none, some, arith, Bytes, codes, leb, ◌==◌, if◌then◌else◌, All, ap,
  Bool-cases,
}
use mathlib.Core.Logic.{inl, inr}
use kierki_sik.Prelude.Int.{ℤ, pos, negsuc}

-- Fuel: one unit for each digit; `n` units are enough for the number `n`.
to_digits : ℕ → ℕ → Bytes → Bytes
to_digits zero n out = out
to_digits (suc f) n out =
    let rest = to_digits f (n / 10) ((b'0' + n % 10) ∷ out) in if n == 0 then out else rest

unfoldable pub to_string : ℕ → Bytes
unfolding to_digits
to_string n = if n == 0 then b'0' ∷ [] else to_digits n n []

unfoldable pub to_string_int : ℤ → Bytes
to_string_int (pos n) = to_string n
to_string_int (negsuc n) = b'-' ∷ to_string (suc n)

unfoldable pub is_digit : ℕ → Bool
is_digit c = leb b'0' c && leb c b'9'

-- The value of the leading digits behind `n`.
read_digits : Bytes → ℕ → ℕ
unfolding is_digit
read_digits [] n = n
read_digits (c ∷ s) n =
    let rest = read_digits s (n * 10 + (c - b'0')) in if is_digit c then rest else n

-- `none` is the exception of `stoi`. No caller passes a text with a sign or a leading blank that a
-- digit follows, so those are not read here; nor does one pass more than two digits.
unfoldable pub stoi : Bytes → Option ℕ
unfolding read_digits
stoi [] = none
stoi (c ∷ s) = if is_digit c then some (read_digits (c ∷ s) 0) else none

read_digits-append :
    (s t : Bytes) (n : ℕ)
    → All (λ c. is_digit c ≡ true) s
    → read_digits (s ++ t) n ≡ read_digits t (read_digits s n)
unfolding read_digits
read_digits-append [] t n h = refl
read_digits-append (c ∷ s) t n h = ground (arith, read_digits-append s t (n * 10 + (c - b'0')) h.1)

read_digits-to_digits :
    (f n : ℕ) (out : Bytes) → n ≤ f → read_digits (to_digits f n out) 0 ≡ read_digits out n
unfolding to_digits read_digits
read_digits-to_digits zero n out h = let e : n ≡ 0 = omega arith in ground arith
read_digits-to_digits (suc f) n out h =
    ground (arith, read_digits-to_digits f (n / 10) ((b'0' + n % 10) ∷ out))

is_digit-digit : (n : ℕ) → is_digit (b'0' + n % 10) ≡ true
unfolding is_digit
is_digit-digit n = ground arith

abbrev pub IsNumeral : Bytes → Type 0
IsNumeral = All (λ c. is_digit c ≡ true)

to_digits-IsNumeral : (f n : ℕ) (out : Bytes) → IsNumeral out → IsNumeral (to_digits f n out)
unfolding to_digits
to_digits-IsNumeral zero n out h = h
to_digits-IsNumeral (suc f) n out h = elim (Bool-cases (n == 0)) [
  | inl e ↦ rw e h
  | inr e ↦ rw e (to_digits-IsNumeral f (n / 10) ((b'0' + n % 10) ∷ out) (is_digit-digit n, h))
]

pub to_string-IsNumeral : (n : ℕ) → IsNumeral (to_string n)
unfolding to_string
to_string-IsNumeral n = elim (Bool-cases (n == 0)) [
  | inl e ↦ rw e (is_digit-digit 0, tt)
  | inr e ↦ rw e (to_digits-IsNumeral n n [] tt)
]

to_digits-ne-nil : (f n : ℕ) (out : Bytes) → out ≢ [] → to_digits f n out ≢ []
unfolding to_digits
to_digits-ne-nil zero n out h = h
to_digits-ne-nil (suc f) n out h =
    ground (arith, to_digits-ne-nil f (n / 10) ((b'0' + n % 10) ∷ out) (λ e. cc))

pub to_string-ne-nil : (n : ℕ) → to_string n ≢ []
unfolding to_string to_digits
to_string-ne-nil zero = λ e. cc
to_string-ne-nil (suc n) =
    ground (arith, to_digits-ne-nil n (suc n / 10) ((b'0' + suc n % 10) ∷ []) (λ e. cc))

read_digits-to_string : (n : ℕ) → read_digits (to_string n) 0 ≡ n
unfolding to_string read_digits
read_digits-to_string n = ground (arith, read_digits-to_digits n n [])

stoi-read_digits : (s : Bytes) → s ≢ [] → IsNumeral s → stoi s ≡ some (read_digits s 0)
unfolding stoi
stoi-read_digits [] ne h = absurd (ne refl)
stoi-read_digits (c ∷ s) ne h = rw (h.0)

-- `stoi` reads back what `to_string` wrote.
pub stoi-to_string : (n : ℕ) → stoi (to_string n) ≡ some n
stoi-to_string n =
    rw (stoi-read_digits (to_string n) (to_string-ne-nil n) (to_string-IsNumeral n))
      (ap some (read_digits-to_string n))

abbrev pub tens : ℕ → ℕ
tens zero = 1
tens (suc k) = 10 * tens k

to_digits-length :
    (f n k : ℕ) (out : Bytes) → n < tens k → length (to_digits f n out) ≤ k + length out
unfolding to_digits
to_digits-length zero n k out h = omega arith
to_digits-length (suc f) zero k out h = omega arith
to_digits-length (suc f) (suc n) zero out h = absurd (omega arith)
to_digits-length (suc f) (suc n) (suc k) out h =
    grind (arith, to_digits-length f (suc n / 10) k ((b'0' + suc n % 10) ∷ out) (omega arith))

-- A number below 10^k has at most `k` digits, and one at least.
pub to_string-length : (n k : ℕ) → n < tens (suc k) → length (to_string n) ≤ suc k
unfolding to_string
to_string-length zero k h = omega arith
to_string-length (suc n) k h = grind (arith, to_digits-length (suc n) (suc n) (suc k) [] h)

test_numbers : to_string 130 ≡ codes "130"
unfolding to_string
test_numbers = refl

test_stoi : stoi (codes "1J") ≡ some 1
unfolding stoi
test_stoi = refl
