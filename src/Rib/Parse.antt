-- ===== src/Rib/Parse.antt =====
-- src/rib/parse.rs: the attributes, the family and the routes of an update.
use bgpd_rs.Base.{
  ◌&&◌, List, [], ◌∷◌, is_empty, Option, none, some, Outcome, ok, err, panic, ◌==◌, if◌then◌else◌,
}
use bgpd_rs.Bgp.{
  ipv4, unicast, safi_Eq, PathAttribute, mp_reach_nlri, NlriEncoding, Update, id_mp_reach_nlri,
}
use bgpd_rs.Rib.Attributes.{AttributeApi}
use bgpd_rs.Rib.Families.{Family}
use bgpd_rs.Session.Error.{SessionError, transport_error, invalid_next_hop}

abbrev pub Parsed : Type 0
Parsed = List PathAttribute × Family × List NlriEncoding

abbrev default_family : Family
default_family = record { afi = ipv4; safi = unicast }

parse_mp_reach : List PathAttribute → Option PathAttribute → Outcome SessionError Parsed
parse_mp_reach attributes none = ok (attributes, default_family, [])
parse_mp_reach attributes (some (mp_reach_nlri nlri)) =
    if nlri.safi == unicast && is_empty nlri.next_hop
    then err (transport_error invalid_next_hop)
    else ok (attributes, record { afi = nlri.afi; safi = nlri.safi }, nlri.announced_routes)
parse_mp_reach attributes (some _) = panic

module _ (lib : AttributeApi) where
  unfoldable pub parse_update : Update → Outcome SessionError Parsed
  unfolding parse_mp_reach
  parse_update update = elim update.announced_routes [
    | [] ↦ parse_mp_reach update.attributes (lib.find update id_mp_reach_nlri)
    | r ∷ rs ↦ ok (update.attributes, default_family, r ∷ rs)
  ]
