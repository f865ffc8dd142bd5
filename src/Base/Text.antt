-- ===== src/Base/Text.antt =====
-- `String` and `&str` as lists of code points, with the functions of `std` that the code calls.
pub mod Decimal
pub mod Split
use Prim.Native.Nat.{ℕ, zero, suc, ◌+◌, ◌-◌, ◌*◌, ◌/◌, ◌%◌}
use Prim.Native.Char.{code}
use Prim.Native.String.{String}
use mathlib.Core.List.{List, [], ◌∷◌, ◌++◌}
use mathlib.Core.Bool.{Bool, true, false, ◌&&◌, ◌||◌}
use mathlib.Core.Option.{Option, none, some}
use native.Mathlib.Decide.{ℕ_discrete}
use bgpd_rs.Base.Tests.{ltb, leb, nat_eq, if◌then◌else◌}
use bgpd_rs.Base.Equality.{Eq, derived_eq, List-discrete}

abbrev pub Text : Type 0
Text = List ℕ

instance abbrev pub text_Eq : Eq Text
text_Eq = derived_eq (List-discrete ℕ_discrete)

-- A literal of the source.
abbrev pub text : String → Text
text (String.◌∷◌ c rest) = code c ∷ text rest
text String.[] = []

abbrev pub is_digit : ℕ → Bool
is_digit c = leb b'0' c && leb c b'9'

-- The digits of `u64` are twenty at most.
digits : ℕ → ℕ → Text → Text
digits zero n out = out
digits (suc rounds) n out =
    let out' = (b'0' + n % 10) ∷ out in
    let rest = digits rounds (n / 10) out' in if ltb n 10 then out' else rest

-- `{}` of a number up to 64 bits wide.
unfoldable pub decimal : ℕ → Text
unfolding digits
decimal n = digits 20 n []

-- `checked_mul` and `checked_add` of each digit in turn.
scan : ℕ → Text → ℕ → Option ℕ
scan max [] n = some n
scan max (c ∷ rest) n =
    let n' = n * 10 + (c - b'0') in
    let read = scan max rest n' in if is_digit c && leb n' max then read else none

-- `parse` to an unsigned number up to `max`: digits, after a sign `+` if there is one.
unfoldable pub parse_uint : ℕ → Text → Option ℕ
unfolding scan
parse_uint max [] = none
parse_uint max (c ∷ []) = scan max (c ∷ []) 0
parse_uint max (c ∷ d ∷ rest) =
    if nat_eq c b'+' then scan max (d ∷ rest) 0 else scan max (c ∷ d ∷ rest) 0

-- `splitn(2, sep)` of a text with the separator.
unfoldable pub split_once : ℕ → Text → Option (Text × Text)
split_once sep [] = none
split_once sep (c ∷ rest) =
    let later = split_once sep rest in
    if nat_eq c sep
    then some ([], rest)
    else elim later [ none ↦ none | some (before, after) ↦ some (c ∷ before, after) ]

-- The parts of a text that ends, and of one that goes on with a character.
add_first : ℕ → List Text → List Text
add_first c [] = (c ∷ []) ∷ []
add_first c (part ∷ parts) = (c ∷ part) ∷ parts

-- `split(sep)`
unfoldable pub split : ℕ → Text → List Text
unfolding add_first
split sep [] = [] ∷ []
split sep (c ∷ rest) =
    let parts = split sep rest in if nat_eq c sep then [] ∷ parts else add_first c parts

-- The characters with the property White_Space.
unfoldable pub is_space : ℕ → Bool
is_space c =
    (leb 9 c && leb c 13)
    || nat_eq c 32
    || nat_eq c 0x85
    || nat_eq c 0xa0
    || nat_eq c 0x1680
    || (leb 0x2000 c && leb c 0x200a)
    || nat_eq c 0x2028
    || nat_eq c 0x2029
    || nat_eq c 0x202f
    || nat_eq c 0x205f
    || nat_eq c 0x3000

-- One more character before the words of what follows; `inside` tells whether these go on a word.
words_from : Bool → Text → Text → List Text
words_from inside word [] = if inside then word ∷ [] else []
words_from true word (c ∷ rest) = elim (is_space c) [
  | true ↦ word ∷ words_from false [] rest
  | false ↦ words_from true (word ++ c ∷ []) rest
]
words_from false word (c ∷ rest) = elim (is_space c) [
  | true ↦ words_from false [] rest
  | false ↦ words_from true (c ∷ []) rest
]

unfoldable pub split_whitespace : Text → List Text
unfolding words_from
split_whitespace = words_from false []

trim_start : Text → Text
trim_start [] = []
trim_start (c ∷ rest) = if is_space c then trim_start rest else c ∷ rest

trim_end : Text → Text
trim_end [] = []
trim_end (c ∷ rest) = elim (trim_end rest) [
  | [] ↦ if is_space c then [] else c ∷ []
  | d ∷ kept ↦ c ∷ d ∷ kept
]

unfoldable pub trim : Text → Text
unfolding trim_start trim_end
trim t = trim_end (trim_start t)
