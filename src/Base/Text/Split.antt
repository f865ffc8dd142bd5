-- ===== src/Base/Text/Split.antt =====
-- Texts split at a separator that the parts do not have.
use Prim.Native.Nat.{ℕ}
use mathlib.Core.List.{[], ◌∷◌, ◌++◌, append-nil, append_assoc}
use mathlib.Core.Path.{◌≡◌, refl, ap, sym}
use mathlib.Core.Bool.{Bool, true, false, not}
use mathlib.Core.Option.{none, some}
use native.Mathlib.Omega.{arith}
use bgpd_rs.Base.Tests.{nat_eq, nat_eq_iff, Bool-cases}
use mathlib.Core.Logic.{inl, inr}
use bgpd_rs.Base.Text.{Text, is_digit, split_once, split, is_space, words_from, split_whitespace}
use bgpd_rs.Base.Text.Decimal.{All, StartsDigit}

-- Texts of characters that are all of some kind, which the separator is not.
module _ (p : ℕ → Bool) (sep : ℕ) (other : p sep ≡ false) where
  apart : (c : ℕ) → p c ≡ true → nat_eq c sep ≡ false
  apart c h = elim (Bool-cases (nat_eq c sep)) [
    | inl same ↦ let e : p c ≡ p sep = ap p ((nat_eq_iff c sep).0 same) in cc
    | inr differs ↦ differs
  ]

  pub split_one_of : (t : Text) → All p t → split sep t ≡ t ∷ []
  unfolding split
  split_one_of [] h = refl
  split_one_of (c ∷ t) (h, hs) = rw (apart c h, split_one_of t hs) refl

  pub split-append_of : (t rest : Text) → All p t → split sep (t ++ sep ∷ rest) ≡ t ∷ split sep rest
  unfolding split
  split-append_of [] rest h = ground arith
  split-append_of (c ∷ t) rest (h, hs) = rw (apart c h, split-append_of t rest hs) refl

module _ (sep : ℕ) (other : is_digit sep ≡ false) where
  pub split_once-none : (t : Text) → All is_digit t → split_once sep t ≡ none
  unfolding split_once
  split_once-none [] h = refl
  split_once-none (c ∷ rest) h = ground (arith, split_once-none rest)

  pub split_once-some :
      (t rest : Text) → All is_digit t → split_once sep (t ++ sep ∷ rest) ≡ some (t, rest)
  unfolding split_once
  split_once-some [] rest h = ground arith
  split_once-some (c ∷ t) rest h = ground (arith, split_once-some t rest)

  pub split_one : (t : Text) → All is_digit t → split sep t ≡ t ∷ []
  split_one = split_one_of is_digit sep other

  pub split-append :
      (t rest : Text) → All is_digit t → split sep (t ++ sep ∷ rest) ≡ t ∷ split sep rest
  split-append = split-append_of is_digit sep other

abbrev pub solid : ℕ → Bool
solid c = not (is_space c)

words_from-solid : (word t : Text) → All solid t → words_from true word t ≡ (word ++ t) ∷ []
unfolding words_from
words_from-solid word [] h = ap (λ w. w ∷ []) (sym (append-nil word))
words_from-solid word (c ∷ t) (h, hs) =
    ground (arith, words_from-solid (word ++ c ∷ []) t hs, append_assoc word (c ∷ []) t)

is_space-blank : is_space b' ' ≡ true
unfolding is_space
is_space-blank = refl

words_from_then :
    (word t rest : Text)
    → All solid t
    → words_from true word (t ++ b' ' ∷ rest) ≡ (word ++ t) ∷ words_from false [] rest
unfolding words_from
words_from_then word [] rest h = ground (arith, is_space-blank, append-nil word)
words_from_then word (c ∷ t) rest (h, hs) = ground (
  arith,
  is_space-blank,
  words_from_then (word ++ c ∷ []) t rest hs,
  append_assoc word (c ∷ []) t,
)

-- A word: some characters, none of them a space.
abbrev pub Word : Text → Type 0
Word [] = ⊥
Word (c ∷ t) = All solid (c ∷ t)

-- Two words with a space between them.
pub split_whitespace-two :
    (t u : Text) → Word t → Word u → split_whitespace (t ++ b' ' ∷ u) ≡ t ∷ u ∷ []
unfolding split_whitespace words_from
split_whitespace-two [] u h k = absurd h
split_whitespace-two (c ∷ t) [] h k = absurd k
split_whitespace-two (c ∷ t) (d ∷ u) (h, hs) (k, ks) =
    ground
      (arith, is_space-blank, words_from_then (c ∷ []) t (d ∷ u) hs, words_from-solid (d ∷ []) u ks)

solid_digit : (c : ℕ) → is_digit c ≡ true → solid c ≡ true
unfolding is_space
solid_digit c h = ground arith

pub All-solid_digits : (t : Text) → All is_digit t → All solid t
All-solid_digits [] h = tt
All-solid_digits (c ∷ t) (h, hs) = (solid_digit c h, All-solid_digits t hs)

pub All-append : (p : ℕ → Bool) (t u : Text) → All p t → All p u → All p (t ++ u)
All-append p [] u h k = k
All-append p (c ∷ t) u (h, hs) k = (h, All-append p t u hs k)

-- A digit and more characters that are no spaces make a word.
pub Word-digit : (t : Text) → StartsDigit t → All solid t → Word t
Word-digit [] h k = absurd h
Word-digit (c ∷ t) h k = k

pub StartsDigit-append : (t u : Text) → StartsDigit t → StartsDigit (t ++ u)
StartsDigit-append [] u h = absurd h
StartsDigit-append (c ∷ t) u h = h
