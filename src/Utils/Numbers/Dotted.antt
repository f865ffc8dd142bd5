-- ===== src/Utils/Numbers/Dotted.antt =====
-- src/utils: AS numbers and operators are read back from their text.
use bgpd_rs.Base.{ℕ, ◌+◌, ◌*◌, ◌/◌, ◌%◌, ◌^◌, ◌<◌, ◌≡◌, refl, ◌∷◌, ◌++◌, ok, arith}
use bgpd_rs.Base.Text.{decimal}
use bgpd_rs.Base.Text.Decimal.{decimal-All, parse_uint-decimal}
use bgpd_rs.Base.Text.Split.{split_once-none, split_once-some}
use bgpd_rs.Utils.Display.{u32_to_dotted}
use bgpd_rs.Utils.Numbers.{u32_max, asn_from_dotted}

-- A text of `high`, a dot and `low` is read as a number of 32 bits, if both fit in 16 bits.
dotted-decimal :
    (high low : ℕ)
    → high < 65536
    → low < 65536
    → asn_from_dotted (decimal high ++ (b'.' ∷ decimal low)) ≡ ok (high * 65536 + low)
unfolding asn_from_dotted
dotted-decimal high low h l =
    rw (split_once-some b'.' refl (decimal high) (decimal low) (decimal-All high)) (
      ground (
        arith,
        parse_uint-decimal u32_max high (omega arith) (omega arith),
        parse_uint-decimal u32_max low (omega arith) (omega arith),
      ))

plain-decimal : (n : ℕ) → n < 2 ^ 32 → asn_from_dotted (decimal n) ≡ ok n
unfolding asn_from_dotted
plain-decimal n small =
    rw (split_once-none b'.' refl (decimal n) (decimal-All n))
      (ground (arith, parse_uint-decimal u32_max n (omega arith) (omega arith)))

-- An AS number of 32 bits is read back from its dotted text.
pub asn_from_dotted-u32_to_dotted :
    (n : ℕ) → n < 2 ^ 32 → asn_from_dotted (u32_to_dotted n b'.') ≡ ok n
unfolding u32_to_dotted
asn_from_dotted-u32_to_dotted n small = ground (
  arith,
  plain-decimal n,
  dotted-decimal (n / 65536 % 65536) (n % 65536) (omega arith) (omega arith),
)
