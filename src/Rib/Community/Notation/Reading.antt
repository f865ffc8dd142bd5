-- ===== src/Rib/Community/Notation/Reading.antt =====
-- src/rib/community.rs: what is read out of the text of communities.
use bgpd_rs.Base.{
  ℕ, ◌+◌, ◌*◌, ◌/◌, ◌%◌, ◌^◌, ◌-◌, ◌≤◌, ◌<◌, ◌≡◌, refl, List, [], ◌∷◌, ◌++◌, length, ok, panic,
  >>=-eq-ok, arith,
}
use bgpd_rs.Base.Text.{Text, decimal, split}
use bgpd_rs.Base.Text.Decimal.{decimal-All, parse_uint-decimal}
use bgpd_rs.Base.Text.Split.{split_one, split-append}
use bgpd_rs.Bgp.{v4}
use bgpd_rs.Rib.Community.{Community, standard}
use bgpd_rs.Rib.Community.Notation.{
  try_from, of_chunks, parse_part, show_community, ext_community_to_display,
}
use bgpd_rs.Utils.Api.{TextApi}
use bgpd_rs.Utils.Display.{u32_to_dotted}

one_part : (n : ℕ) → n < 2 ^ 32 → try_from (decimal n) ≡ ok (standard n)
unfolding try_from
one_part n small =
    rw (split_one b':' refl (decimal n) (decimal-All n))
      (ground (arith, parse_uint-decimal (2 ^ 32 - 1) n (omega arith) (omega arith)))

-- Two numbers of 32 bits with a colon between them are read as a community of 32 bits: the upper 16
-- bits of the first number are lost, and the second number is added to the rest.
pub try_from_wraps :
    (a b : ℕ)
    → a < 2 ^ 32
    → b < 2 ^ 32
    → try_from (decimal a ++ (b':' ∷ decimal b)) ≡ ok (standard ((a % 65536 * 65536 + b) % 2 ^ 32))
unfolding try_from
try_from_wraps a b ha hb =
    rw
      (
        split-append b':' refl (decimal a) (decimal b) (decimal-All a),
        split_one b':' refl (decimal b) (decimal-All b),
      )
      (ground (
        arith,
        parse_uint-decimal (2 ^ 32 - 1) a (omega arith) (omega arith),
        parse_uint-decimal (2 ^ 32 - 1) b (omega arith) (omega arith),
      ))

-- A standard community is read back from its text.
pub try_from-show_community :
    (api : TextApi) (n : ℕ)
    → n < 2 ^ 32
    → try_from (show_community api (standard n)) ≡ ok (standard n)
unfolding show_community u32_to_dotted
try_from-show_community api n small =
    ground (
      arith,
      one_part n,
      try_from_wraps (n / 65536 % 65536) (n % 65536) (omega arith) (omega arith),
    )

-- A text with two colons or more makes the parser panic.
pub try_from-panic : (value : Text) → 3 ≤ length (split b':' value) → try_from value ≡ panic
unfolding try_from
try_from-panic value long = three (split b':' value) long
  where
    three : (chunks : List Text) → 3 ≤ length chunks → of_chunks chunks ≡ panic
    three [] h = absurd (omega arith)
    three (a ∷ []) h = absurd (omega arith)
    three (a ∷ b ∷ []) h = absurd (omega arith)
    three (a ∷ b ∷ c ∷ rest) h = refl

-- The text of an IPv4 address community has another address: the octet of the type, and the first
-- three octets of the address.
pub ext_community_to_display_shifted :
    (api : TextApi) (addr asn : ℕ)
    → addr < 2 ^ 32
    → asn < 65536
    → ext_community_to_display api (2 ^ 48 + addr * 65536 + asn)
      ≡ api.show_ip (v4 (2 ^ 24 + addr / 256)) ++ (b':' ∷ decimal asn)
unfolding ext_community_to_display
ext_community_to_display_shifted api addr asn ha hb = ground arith

-- Only standard communities are read.
pub try_from-standard :
    (value : Text) {c : Community} → try_from value ≡ ok c → (n : ℕ) × (c ≡ standard n)
unfolding try_from
try_from-standard value {c} h = made (split b':' value) h
  where
    made : (chunks : List Text) → of_chunks chunks ≡ ok c → (n : ℕ) × (c ≡ standard n)
    made [] h = cc
    made (a ∷ []) h = let (n, e, rest) = >>=-eq-ok (parse_part a) _ h in (n, cc)
    made (a ∷ b ∷ []) h =
        let (n, e, rest) = >>=-eq-ok (parse_part a) _ h in
        let (m, e', last) = >>=-eq-ok (parse_part b) _ rest in ((n * 65536 + m) % 2 ^ 32, cc)
    made (a ∷ b ∷ d ∷ rest) h = cc
