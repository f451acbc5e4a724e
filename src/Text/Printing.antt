-- ===== src/Text/Printing.antt =====
-- A printed number reads back as itself.
use mod_security_iis.Prelude.{
  ℕ, zero, suc, ◌+◌, ◌-◌, ◌*◌, ◌/◌, ◌%◌, ◌^◌, ◌≤◌, ◌<◌, ◌≡◌, ◌∙◌, refl, inl, inr, some, [], ◌∷◌,
  arith, ltb, sym, ap, length, Bool-cases,
}
use mod_security_iis.System.{Bytes}
use mod_security_iis.Text.{print_digits, to_string, whole_number}
use mod_security_iis.Text.Numbers.{AllDigits, decimal_value, IsDecimal, whole_number_iff}

abbrev pub ten_to : ℕ → ℕ
ten_to zero = 1
ten_to (suc k) = 10 * ten_to k

print_digits-last :
    (fuel n : ℕ) (rest : Bytes) → n < 10 → print_digits (suc fuel) n rest ≡ (b'0' + n % 10) ∷ rest
unfolding print_digits
print_digits-last fuel n rest h = ground arith

print_digits-more :
    (fuel n : ℕ) (rest : Bytes)
    → 10 ≤ n
    → print_digits (suc fuel) n rest ≡ print_digits fuel (n / 10) ((b'0' + n % 10) ∷ rest)
unfolding print_digits
print_digits-more fuel n rest h = ground arith

print_digits-zero : (n : ℕ) (rest : Bytes) → print_digits zero n rest ≡ rest
unfolding print_digits
print_digits-zero n rest = refl

-- The digits before the rest.
record Prints (n : ℕ) (rest : Bytes) (s : Bytes) : Type 0 where
  value : decimal_value 0 s ≡ decimal_value n rest
  digits : AllDigits rest → AllDigits s
  longer : length rest ≤ length s

print_digits-Prints :
    (fuel n : ℕ) (rest : Bytes) → n < ten_to fuel → Prints n rest (print_digits fuel n rest)
print_digits-Prints zero n rest h =
    let none_left : n ≡ 0 = omega arith in
    rw (print_digits-zero n rest) (record {
      value = ap (λ m. decimal_value m rest) (sym none_left);
      digits = λ d. d;
      longer = omega arith;
    })
print_digits-Prints (suc fuel) n rest h = elim (Bool-cases (ltb n 10)) [
  | inl small ↦ rw (print_digits-last fuel n rest (ground arith)) (ground arith)
  | inr large ↦
      let ih = print_digits-Prints fuel (n / 10) ((b'0' + n % 10) ∷ rest) (omega arith) in
      let whole : n / 10 * 10 + (b'0' + n % 10 - b'0') ≡ n = omega arith in
      rw (print_digits-more fuel n rest (ground arith)) (record {
        value = ih.value ∙ ap (λ m. decimal_value m rest) whole;
        digits = λ d. ih.digits (ground arith, d);
        longer = omega (arith, ih.longer);
      })
]

print_digits-length :
    (fuel n : ℕ) (rest : Bytes) → length (print_digits fuel n rest) ≤ fuel + length rest
unfolding print_digits
print_digits-length zero n rest = omega arith
print_digits-length (suc fuel) n rest =
    ground (arith, print_digits-length fuel (n / 10) ((b'0' + n % 10) ∷ rest))

print_digits-enough :
    (fuel n : ℕ) (rest : Bytes)
    → n < ten_to fuel
    → 0 < fuel
    → print_digits (suc fuel) n rest ≡ print_digits fuel n rest
print_digits-enough zero n rest h p = absurd (omega arith)
print_digits-enough (suc zero) n rest h p =
    print_digits-last 1 n rest (omega arith) ∙ sym (print_digits-last 0 n rest (omega arith))
print_digits-enough (suc (suc fuel)) n rest h p = elim (Bool-cases (ltb n 10)) [
  | inl small ↦
      print_digits-last (suc (suc fuel)) n rest (ground arith)
      ∙ sym (print_digits-last (suc fuel) n rest (ground arith))
  | inr large ↦
      rw
        (
          print_digits-more (suc (suc fuel)) n rest (ground arith),
          print_digits-more (suc fuel) n rest (ground arith),
        )
        (print_digits-enough (suc fuel) (n / 10) ((b'0' + n % 10) ∷ rest) (omega arith)
          (omega arith))
]

to_string_lem : (n : ℕ) → to_string n ≡ print_digits 20 n []
unfolding to_string
to_string_lem n = refl

to_string-IsDecimal : (n : ℕ) → 0 < n → n < 2 ^ 64 → IsDecimal (to_string n) n
to_string-IsDecimal n p h =
    let prints = print_digits-Prints 20 n [] (omega arith) in
    rw (to_string_lem n) (
      λ e. absurd (omega (arith, prints.value, ap (decimal_value 0) e)),
      prints.digits tt,
      prints.value,
      p,
      h,
    )

-- A positive 64-bit number that is printed in decimal is read back as itself.
pub whole_number-to_string : (n : ℕ) → 0 < n → n < 2 ^ 64 → whole_number (to_string n) ≡ some n
whole_number-to_string n p h = (whole_number_iff (to_string n) n).1 (to_string-IsDecimal n p h)

-- Below 10 ^ 19 it takes no more than nineteen digits.
pub to_string-length : (n : ℕ) → n < ten_to 19 → length (to_string n) ≤ 19
to_string-length n h =
    rw (to_string_lem n, print_digits-enough 19 n [] h (omega arith))
      (omega (arith, print_digits-length 19 n []))
