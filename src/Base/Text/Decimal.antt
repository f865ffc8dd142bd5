-- ===== src/Base/Text/Decimal.antt =====
-- Decimal numbers: what is written is read back.
use Prim.Native.Nat.{ℕ, zero, suc, ◌+◌, ◌/◌, ◌%◌, ◌^◌, ◌≤◌, ◌<◌}
use mathlib.Core.List.{[], ◌∷◌}
use mathlib.Core.Path.{◌≡◌, refl, ◌∙◌}
use mathlib.Core.Bool.{Bool, true}
use mathlib.Core.Option.{some}
use native.Mathlib.Omega.{arith}
use bgpd_rs.Base.Text.{Text, is_digit, digits, decimal, scan, parse_uint}

abbrev pub All : (ℕ → Bool) → Text → Type 0
All p [] = Unit {0}
All p (c ∷ rest) = (p c ≡ true) × All p rest

digits-All : (rounds n : ℕ) (out : Text) → All is_digit out → All is_digit (digits rounds n out)
unfolding digits
digits-All zero n out h = h
digits-All (suc rounds) n out h = ground (arith, digits-All rounds (n / 10) ((b'0' + n % 10) ∷ out))

pub decimal-All : (n : ℕ) → All is_digit (decimal n)
unfolding decimal
decimal-All n = digits-All 20 n [] tt

-- A text that starts with a digit.
abbrev pub StartsDigit : Text → Type 0
StartsDigit [] = ⊥
StartsDigit (c ∷ rest) = is_digit c ≡ true

digits-StartsDigit : (rounds n : ℕ) (out : Text) → StartsDigit (digits (suc rounds) n out)
unfolding digits
digits-StartsDigit zero n out = ground arith
digits-StartsDigit (suc rounds) n out =
    ground (arith, digits-StartsDigit rounds (n / 10) ((b'0' + n % 10) ∷ out))

pub decimal-StartsDigit : (n : ℕ) → StartsDigit (decimal n)
unfolding decimal
decimal-StartsDigit n = digits-StartsDigit 19 n []

scan-digits :
    (max rounds n : ℕ) (out : Text)
    → n < 10 ^ suc rounds
    → n ≤ max
    → scan max (digits (suc rounds) n out) 0 ≡ scan max out n
unfolding digits scan
scan-digits max zero n out small fits = ground arith
scan-digits max (suc rounds) n out small fits =
    ground (arith, scan-digits max rounds (n / 10) ((b'0' + n % 10) ∷ out))

parse_uint-scan : (max : ℕ) (t : Text) → StartsDigit t → parse_uint max t ≡ scan max t 0
unfolding parse_uint
parse_uint-scan max [] h = absurd h
parse_uint-scan max (c ∷ []) h = refl
parse_uint-scan max (c ∷ d ∷ rest) h = ground arith

-- A number that fits is read back from its decimal form.
pub parse_uint-decimal : (max n : ℕ) → n ≤ max → n < 2 ^ 64 → parse_uint max (decimal n) ≡ some n
unfolding decimal
parse_uint-decimal max n fits small =
    parse_uint-scan max (decimal n) (decimal-StartsDigit n)
    ∙ scan-digits max 19 n [] (omega arith) fits
    ∙ unfold scan in refl
