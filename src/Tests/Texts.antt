-- ===== src/Tests/Texts.antt =====
-- src/utils and src/rib/community.rs: the theorems about texts at concrete texts.
use bgpd_rs.Base.{ℕ, ◌≡◌, refl, [], ◌∷◌, ◌++◌, ok, arith}
use bgpd_rs.Base.Text.{text, decimal}
use bgpd_rs.Bgp.{PathAttribute, ipv4, safi_flowspec}
use bgpd_rs.Rib.Community.{standard}
use bgpd_rs.Rib.Community.Notation.{try_from, show_community, ext_community_to_display}
use bgpd_rs.Rib.Community.Notation.Reading.{try_from_wraps, try_from-show_community}
use bgpd_rs.Rib.Families.{Family}
use bgpd_rs.Tests.Data.{texts}
use bgpd_rs.Utils.Display.{u32_to_dotted}
use bgpd_rs.Utils.Error.{ParseError}
use bgpd_rs.Utils.Flow.{redirect, action_attribute}
use bgpd_rs.Utils.Flow.Actions.{described, Fits, action_attribute-display}
use bgpd_rs.Utils.Numbers.{asn_from_dotted, parse_num_operator}
use bgpd_rs.Utils.Numbers.Dotted.{asn_from_dotted-u32_to_dotted}
use bgpd_rs.Utils.Numbers.Operators.{meant, parse_num_operator-decimal}

asn_from_dotted-u32_to_dotted_example :
    asn_from_dotted (u32_to_dotted 4259840100 b'.') ≡ ok 4259840100
asn_from_dotted-u32_to_dotted_example = asn_from_dotted-u32_to_dotted 4259840100 (omega arith)

parse_num_operator-decimal_example :
    parse_num_operator 65535 (text ">=" ++ decimal 8080) 1 ≡ ok (meant 1 (text ">="), 8080)
parse_num_operator-decimal_example =
    parse_num_operator-decimal 65535 8080 1 (text ">=") (refl, (refl, tt)) (omega arith)
      (omega arith)

try_from-show_community_example :
    try_from (show_community texts (standard 6553700)) ≡ ok (standard 6553700)
try_from-show_community_example = try_from-show_community texts 6553700 (omega arith)

try_from_wraps_example : try_from (decimal 65537 ++ (b':' ∷ decimal 100)) ≡ ok (standard 65636)
try_from_wraps_example = try_from_wraps 65537 100 (omega arith) (omega arith)

redirected_Fits : Fits (redirect (standard 6553700))
unfolding Fits
redirected_Fits = (omega arith, omega arith)

action_attribute-display_example :
    (n : ℕ) × (action_attribute {E = ParseError} (redirect (standard 6553700))
        ≡ ok (PathAttribute.extended_communities (n ∷ []))
      × ext_community_to_display texts n ≡ described texts (redirect (standard 6553700)))
action_attribute-display_example =
    action_attribute-display texts (redirect (standard 6553700)) redirected_Fits

abbrev flow_v4 : Family
flow_v4 = record { afi = ipv4; safi = safi_flowspec }
