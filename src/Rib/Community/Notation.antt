-- ===== src/Rib/Community/Notation.antt =====
-- src/rib/community.rs: communities as text, and back.
pub mod Reading
use bgpd_rs.Base.{
  ℕ, ◌+◌, ◌*◌, ◌/◌, ◌%◌, ◌^◌, ◌-◌, Bool, true, false, not, if◌then◌else◌, List, [], ◌∷◌, ◌++◌, map,
  Option, none, some, Outcome, ok, err, panic, or_err, ◌>>=◌, ◌==◌, nat_Eq,
}
use bgpd_rs.Base.Text.{Text, text, decimal, parse_uint, split}
use bgpd_rs.Bgp.{v4}
use bgpd_rs.Rib.Community.{Community, standard, extended}
use bgpd_rs.Utils.Api.{TextApi}
use bgpd_rs.Utils.Display.{u32_to_dotted}

-- The `io::Error` "Invalid community".
pub data CommunityError : Type 0 where
  invalid_community : CommunityError

parse_part : Text → Outcome CommunityError ℕ
parse_part chunk = or_err (parse_uint (2 ^ 32 - 1) chunk) invalid_community

-- The sum wraps around in 32 bits; more than two parts are `unimplemented!()`.
of_chunks : List Text → Outcome CommunityError Community
unfolding parse_part
of_chunks [] = panic
of_chunks (chunk ∷ []) = do n ← parse_part chunk; ok (standard n)
of_chunks (high ∷ low ∷ []) = do
  a ← parse_part high
  b ← parse_part low
  ok (standard ((a * 65536 + b) % 2 ^ 32))
of_chunks (_ ∷ _ ∷ _ ∷ _) = panic

unfoldable pub try_from : Text → Outcome CommunityError Community
unfolding of_chunks
try_from value = of_chunks (split b':' value)

-- `join`
unfoldable pub join : Text → List Text → Text
join sep [] = []
join sep (t ∷ []) = t
join sep (t ∷ u ∷ ts) = t ++ (sep ++ join sep (u ∷ ts))

-- The fields that the formats of an extended community have.
abbrev pub two_octets : ℕ → ℕ
two_octets value = value / 2 ^ 32 % 65536

abbrev pub four_octets : ℕ → ℕ
four_octets value = value % 2 ^ 32

module _ (api : TextApi) where
  unfoldable pub show_action : ℕ → Text
  show_action action = if action * 2 % 2 ^ 32 == 0 then decimal action else text "sample"

  abbrev pub colon : Text → Text → Text
  colon a b = a ++ (b':' ∷ b)

  unfoldable pub ext_community_to_display : ℕ → Text
  unfolding show_action
  ext_community_to_display value =
      let c_type = value / 2 ^ 48 % 256 in
      let asn = decimal (two_octets value) in
      if c_type == 0x0
      then colon asn (u32_to_dotted (four_octets value) b'.')
      else if c_type == 0x1
      then colon (api.show_ip (v4 (value / 2 ^ 24 % 2 ^ 32))) (decimal (value % 65536))
      else if c_type == 0x2
      then colon (text "target") (colon asn (api.show_ip (v4 (four_octets value))))
      else if c_type == 0x3
      then colon (text "opaque") (decimal value)
      else if c_type == 0x6
      then colon (text "traffic-rate") (colon asn (api.show_f32 (four_octets value) ++ text "bps"))
      else if c_type == 0x7
      then colon (text "traffic-action") (colon asn (show_action (four_octets value)))
      else if c_type == 0x8
      then colon (text "redirect") (colon asn (u32_to_dotted (four_octets value) b'.'))
      else if c_type == 0x9
      then colon (text "traffic-marking") (decimal (value % 256))
      else colon (text "unknown") (colon (decimal c_type) (decimal value))

  unfoldable pub show_community : Community → Text
  show_community (standard value) = u32_to_dotted value b':'
  show_community (extended value) = ext_community_to_display value

  unfoldable pub show_communities : List Community → Text
  show_communities cs = join (b' ' ∷ []) (map show_community cs)
