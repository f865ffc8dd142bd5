-- ===== src/Utils/Numbers.antt =====
-- src/utils/parse.rs: AS numbers, prefixes, and the operators of a flow match.
pub mod Dotted
pub mod Operators
use bgpd_rs.Base.{
  ℕ, ◌+◌, ◌*◌, ltb, ◌^◌, ◌-◌, Bool, true, false, not, ◌&&◌, ◌||◌, if◌then◌else◌, List, [], ◌∷◌,
  Option, none, some, Outcome, ok, err, panic, or_err, ◌>>=◌, ◌==◌, nat_Eq,
}
use bgpd_rs.Base.Bytes.{octets}
use bgpd_rs.Base.Text.{Text, parse_uint, split_once}
use bgpd_rs.Bgp.{IpAddr, v4, v6, IpNetwork, v4_net, v6_net, Prefix, ipv4, ipv6, NumericOperator}
use bgpd_rs.Config.{unwrap_or}
use bgpd_rs.Utils.Api.{TextApi}
use bgpd_rs.Utils.Error.{
  ParseError, bad_number, unsupported_asn, bad_prefix, not_a_prefix, bad_value,
}

abbrev pub u32_max : ℕ
u32_max = 2 ^ 32 - 1

abbrev pub u8_max : ℕ
u8_max = 255

-- A part of a dotted number fits in 16 bits.
dotted_part : Text → Text → Outcome ParseError ℕ
dotted_part value chunk = do
  n ← or_err (parse_uint u32_max chunk) (bad_number value)
  if ltb 65535 n then err (unsupported_asn value) else ok n

-- The parts are read from the last one on.
dotted_parts : Text → Option (Text × Text) → Outcome ParseError ℕ
unfolding dotted_part
dotted_parts value none = or_err (parse_uint u32_max value) (bad_number value)
dotted_parts value (some (high, low)) = do
  l ← dotted_part value low
  h ← dotted_part value high
  ok (h * 65536 + l)

unfoldable pub asn_from_dotted : Text → Outcome ParseError ℕ
unfolding dotted_parts
asn_from_dotted value = dotted_parts value (split_once b'.' value)

unfoldable pub prefix_from_network : IpNetwork → Prefix
prefix_from_network (v4_net n length) = record {
  protocol = ipv4;
  length = length;
  prefix = octets 4 n;
}
prefix_from_network (v6_net n length) = record {
  protocol = ipv6;
  length = length;
  prefix = octets 16 n;
}

ip_prefix : IpAddr → ℕ → Prefix
ip_prefix (v4 n) length = record { protocol = ipv4; length = length; prefix = octets 4 n }
ip_prefix (v6 n) length = record { protocol = ipv6; length = length; prefix = octets 16 n }

module _ (api : TextApi) where
  prefix_parts : Text → Option (Text × Text) → Outcome ParseError Prefix
  unfolding ip_prefix
  prefix_parts prefix none = err (not_a_prefix prefix)
  prefix_parts prefix (some (addr, mask)) = do
    ip ← or_err (api.parse_ip addr) (bad_prefix prefix)
    length ← or_err (parse_uint u8_max mask) (bad_prefix prefix)
    ok (ip_prefix ip length)

  unfoldable pub prefix_from_str : Text → Outcome ParseError Prefix
  unfolding prefix_parts
  prefix_from_str prefix = prefix_parts prefix (split_once b'/' prefix)

abbrev pub no_operator : NumericOperator
no_operator = record { and_bit = false; gt = false; lt = false; eq = false; other_bits = 0 }

-- The operators at the front, and the text from the first other character on, if there is one.
read_operators : NumericOperator → Text → NumericOperator × Option Text
read_operators oper [] = (oper, none)
read_operators oper (c ∷ rest) =
    let greater = read_operators (record oper { gt = true }) rest in
    let less = read_operators (record oper { lt = true }) rest in
    let equal = read_operators (record oper { eq = true }) rest in
    if c == b'>'
    then greater
    else if c == b'<'
    then less
    else if c == b'='
    then equal
    else (oper, some (c ∷ rest))

is_empty_operator : NumericOperator → Bool
is_empty_operator o = not (o.and_bit || o.gt || o.lt || o.eq) && o.other_bits == 0

-- No operator is EQ, and all but the first item are AND'd.
finish_operator : ℕ → NumericOperator → NumericOperator
unfolding is_empty_operator
finish_operator index o =
    let o' = if is_empty_operator o then record o { eq = true } else o in
    if ltb 0 index then record o' { and_bit = true } else o'

unfoldable pub parse_num_operator : ℕ → Text → ℕ → Outcome ParseError (NumericOperator × ℕ)
unfolding read_operators finish_operator
parse_num_operator max word index = do
  let (oper, rest) = read_operators no_operator word
  value ← or_err (parse_uint max (unwrap_or rest word)) (bad_value word)
  ok (finish_operator index oper, value)
