-- ===== src/Http/Decimal.antt =====
-- Numbers in decimal, as `to_string` prints the length of a body.
use pkgre.Prelude.{
  ℕ, zero, suc, ◌+◌, ◌*◌, ◌/◌, ◌%◌, ◌<◌, [], ◌∷◌, ◌++◌, Bytes, ◌≡◌, refl, ◌∙◌, arith, ltb,
  if◌then◌else◌, ◌-◌, Bool-cases, inl, inr,
}

-- The digits, on fuel: one more than the number is enough.
unfoldable pub digits : ℕ → ℕ → Bytes
digits zero n = []
digits (suc fuel) n =
    let rest = digits fuel (n / 10) in
    if ltb n 10 then (b'0' + n) ∷ [] else rest ++ ((b'0' + n % 10) ∷ [])

unfoldable pub to_string : ℕ → Bytes
unfolding digits
to_string n = digits (suc n) n

-- The number that a string of digits stands for, with the value of the digits in front.
unfoldable pub number : ℕ → Bytes → ℕ
number value [] = value
number value (c ∷ text) = number (value * 10 + (c - b'0')) text

number-append :
    (value : ℕ) (text : Bytes) (c : ℕ)
    → number value (text ++ (c ∷ [])) ≡ number value text * 10 + (c - b'0')
unfolding number
number-append value [] c = refl
number-append value (d ∷ text) c = number-append (value * 10 + (d - b'0')) text c

tenth : (n t : ℕ) → t ≡ n / 10 → t * 10 + ((b'0' + n % 10) - b'0') ≡ n
tenth n t h = omega arith

number-digits : (fuel n : ℕ) → n < fuel → number 0 (digits fuel n) ≡ n
unfolding digits number
number-digits zero n h = absurd (omega arith)
number-digits (suc fuel) n h = elim (Bool-cases (ltb n 10)) [
  | inl small ↦ rw small (omega arith)
  | inr large ↦ rw large (
      number-append 0 (digits fuel (n / 10)) (b'0' + n % 10)
      ∙ tenth n (number 0 (digits fuel (n / 10))) (number-digits fuel (n / 10) (ground arith)))
]

-- The digits of a length read back as the length.
pub number-to_string : (n : ℕ) → number 0 (to_string n) ≡ n
unfolding to_string
number-to_string n = number-digits (suc n) n (omega arith)
