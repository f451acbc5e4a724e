-- ===== src/Text/Numbers.antt =====
-- Reading a whole number accepts just the digit strings of a positive 64-bit value.
use mod_security_iis.Prelude.{
  ℕ, ◌+◌, ◌-◌, ◌*◌, ◌^◌, ◌<◌, ◌≡◌, refl, ◌↔◌, ◌≢◌, true, some, [], ◌∷◌, arith, is_empty,
}
use mod_security_iis.System.{Bytes}
use mod_security_iis.Text.{is_digit, read_digits, whole_number}

abbrev pub AllDigits : Bytes → Type 0
AllDigits [] = Unit
AllDigits (c ∷ s) = (is_digit c ≡ true) × AllDigits s

-- The value of a digit string, from the left.
abbrev pub decimal_value : ℕ → Bytes → ℕ
decimal_value v [] = v
decimal_value v (c ∷ s) = decimal_value (v * 10 + (c - b'0')) s

-- The digit string of a positive 64-bit number.
abbrev pub IsDecimal : Bytes → ℕ → Type 0
IsDecimal s x = (s ≢ []) × AllDigits s × (decimal_value 0 s ≡ x) × (0 < x) × (x < 2 ^ 64)

read_digits-all : (v : ℕ) (s : Bytes) → AllDigits s → read_digits v s ≡ (decimal_value v s, [])
read_digits-all v [] h = refl
read_digits-all v (c ∷ s) (d, h) = ground (arith, read_digits-all (v * 10 + (c - b'0')) s h)

read_digits_whole :
    (v : ℕ) (s : Bytes)
    → is_empty (read_digits v s).1 ≡ true
    → AllDigits s × ((read_digits v s).0 ≡ decimal_value v s)
read_digits_whole v [] h = (tt, refl)
read_digits_whole v (c ∷ s) h = ground (arith, read_digits_whole (v * 10 + (c - b'0')) s)

-- A byte string is taken as the number x exactly when it is not empty, has digits alone, has the
-- decimal value x, and x is positive and fits in 64 bits.
pub whole_number_iff : (s : Bytes) (x : ℕ) → (whole_number s ≡ some x) ↔ IsDecimal s x
unfolding whole_number
whole_number_iff [] x = (λ h. cc, λ h. absurd (h.0 refl))
whole_number_iff (c ∷ s) x = (
  λ h. ground (arith, read_digits_whole 0 (c ∷ s)),
  λ h. ground (arith, read_digits-all 0 (c ∷ s) h.1),
)
