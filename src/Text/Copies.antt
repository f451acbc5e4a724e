-- ===== src/Text/Copies.antt =====
-- `AToUtf8` returns the header value, with or without the terminating NUL in its length.
use mod_security_iis.Prelude.{
  ℕ, suc, ◌-◌, ◌≡◌, refl, ◌≢◌, some, [], ◌∷◌, ◌++◌, ◌≤◌, arith, length, take, length-append,
  take_all, ap,
}
use mod_security_iis.System.{Bytes}
use mod_security_iis.Text.{byte_at, a_to_utf8}

byte_at-append : (s : Bytes) (c : ℕ) → byte_at (s ++ c ∷ []) (length s) ≡ c
byte_at-append [] c = refl
byte_at-append (x ∷ s) c = byte_at-append s c

byte_at-append_nul : (s : Bytes) (c : ℕ) → byte_at (s ++ c ∷ 0 ∷ []) (suc (length s)) ≡ 0
byte_at-append_nul [] c = refl
byte_at-append_nul (x ∷ s) c = byte_at-append_nul s c

take_past : (s : Bytes) (c : ℕ) → take (suc (length s)) (s ++ c ∷ 0 ∷ []) ≡ s ++ c ∷ []
take_past [] c = refl
take_past (x ∷ s) c = ap (◌∷◌ x) (take_past s c)

-- A value whose last byte is not NUL is copied whole, and so is one that is followed by a
-- terminating NUL which its length counts.
pub a_to_utf8-copies :
    (s : Bytes) (c : ℕ)
    → c ≢ 0
    → (a_to_utf8 (some (s ++ c ∷ [])) (suc (length s)) ≡ s ++ c ∷ [])
      × (a_to_utf8 (some (s ++ c ∷ 0 ∷ [])) (suc (suc (length s))) ≡ s ++ c ∷ [])
unfolding a_to_utf8
a_to_utf8-copies s c h = (
  ground (arith, length-append s (c ∷ []), at_end, take_all _ _ whole),
  ground (arith, at_nul, take_front),
)
  where
    at_end : byte_at (s ++ c ∷ []) (suc (length s) - 1) ≡ c
    at_end = let e : suc (length s) - 1 ≡ length s = omega arith in rw e (byte_at-append s c)

    whole : length (s ++ c ∷ []) ≤ suc (length s)
    whole = omega (arith, length-append s (c ∷ []))

    at_nul : byte_at (s ++ c ∷ 0 ∷ []) (suc (suc (length s)) - 1) ≡ 0
    at_nul =
        let e : suc (suc (length s)) - 1 ≡ suc (length s) = omega arith in
        rw e (byte_at-append_nul s c)

    take_front : take (suc (suc (length s)) - 1) (s ++ c ∷ 0 ∷ []) ≡ s ++ c ∷ []
    take_front =
        let e : suc (suc (length s)) - 1 ≡ suc (length s) = omega arith in rw e (take_past s c)
