-- ===== src/Session/Updates.antt =====
-- src/session/lib.rs: the UPDATE message for a route of the table.
pub mod Announced
pub mod Infallible
use bgpd_rs.Base.{
  ℕ, Bool, true, false, not, ◌&&◌, if◌then◌else◌, List, [], ◌∷◌, ◌++◌, is_empty, Option, none, some,
  Outcome, ok, err, panic, ◌>>=◌, ◌==◌,
}
use bgpd_rs.Base.Bytes.{octets}
use bgpd_rs.Bgp.{
  IpAddr, v4, v6, Afi, ipv4, ipv6, afi_Eq, safi_Eq, unicast, safi_flowspec, Origin, Segment,
  as_sequence, as_set, AsPath, Prefix, NlriEncoding, ip, flowspec, PathAttribute, MpReachNlri,
  Update, Message,
}
use bgpd_rs.Config.{PeerConfig, is_ebgp, unwrap_or}
use bgpd_rs.Rib.Community.{all_standard, all_extended}
use bgpd_rs.Rib.Attributes.{PathAttributes}
use bgpd_rs.Rib.Entry.{ExportedUpdate}
use bgpd_rs.Session.Peer.{Session}

optional {ℓ} : {A : Type ℓ} → (A → PathAttribute) → Option A → List PathAttribute
optional make none = []
optional make (some a) = make a ∷ []

unless_empty : (List ℕ → PathAttribute) → List ℕ → List PathAttribute
unless_empty make [] = []
unless_empty make (c ∷ cs) = make (c ∷ cs) ∷ []

-- NEXT_HOP goes with IPv4 unicast alone.
sent_next_hop : ExportedUpdate → Option IpAddr
sent_next_hop u =
    if u.family.afi == ipv4 && u.family.safi == unicast then u.attributes.next_hop else none

prepend : ℕ → Segment → Segment
prepend asn (as_sequence asns) = as_sequence (asn ∷ asns)
prepend asn (as_set asns) = as_set (asn ∷ asns)

-- To an external peer, the own number in front of the first segment; the others are dropped.
unfoldable pub own_path : ℕ → AsPath → AsPath
unfolding prepend
own_path asn p = elim p.segments [
  | [] ↦ record { segments = as_sequence (asn ∷ []) ∷ [] }
  | segment ∷ _ ↦ record { segments = prepend asn segment ∷ [] }
]

unfoldable pub sent_path : PeerConfig → AsPath → AsPath
sent_path config p = if is_ebgp config then own_path config.local_as p else p

-- The attributes in the order in which they are pushed.
assemble : Origin → Option IpAddr → ℕ → AsPath → Option ℕ → List ℕ → List ℕ → List PathAttribute
unfolding optional unless_empty
assemble origin next_hop local_pref as_path med standard extended =
    PathAttribute.origin origin ∷ optional PathAttribute.next_hop next_hop
    ++ PathAttribute.local_pref local_pref
      ∷ PathAttribute.as_path as_path
      ∷ optional PathAttribute.multi_exit_disc med
    ++ unless_empty PathAttribute.community standard
    ++ unless_empty PathAttribute.extended_communities extended

base_attributes : PeerConfig → ExportedUpdate → List PathAttribute
unfolding assemble sent_next_hop
base_attributes config u =
    assemble u.attributes.origin (sent_next_hop u) (unwrap_or u.attributes.local_pref 100)
      (sent_path config u.attributes.as_path) u.attributes.multi_exit_disc
      (all_standard u.attributes.communities) (all_extended u.attributes.communities)

with_mp : List PathAttribute → MpReachNlri → Update
with_mp attributes nlri = record {
  withdrawn_routes = [];
  attributes = attributes ++ PathAttribute.mp_reach_nlri nlri ∷ [];
  announced_routes = [];
}

module _ {ℓ} {E : Type ℓ} where
  -- The octets of an IPv6 next hop; anything else is `unreachable!()`.
  v6_octets : Option IpAddr → Outcome E (List ℕ)
  v6_octets (some (v6 n)) = ok (octets 16 n)
  v6_octets (some (v4 n)) = panic
  v6_octets none = panic

  announce_prefix : List PathAttribute → ExportedUpdate → Afi → Prefix → Outcome E Update
  unfolding with_mp v6_octets
  announce_prefix attributes u ipv4 prefix =
      ok (record {
        withdrawn_routes = [];
        attributes = attributes;
        announced_routes = ip prefix ∷ [];
      })
  announce_prefix attributes u ipv6 prefix = do
    next_hop ← v6_octets u.attributes.next_hop
    ok (
        with_mp attributes (record {
          afi = ipv6;
          safi = u.family.safi;
          next_hop = next_hop;
          announced_routes = ip prefix ∷ [];
        }))
  announce_prefix attributes u _ prefix = panic

  announce_nlri : List PathAttribute → ExportedUpdate → NlriEncoding → Outcome E Update
  unfolding with_mp announce_prefix
  announce_nlri attributes u (ip prefix) = announce_prefix attributes u prefix.protocol prefix
  announce_nlri attributes u (flowspec filters) = ok (
      with_mp attributes (record {
        afi = u.family.afi;
        safi = safi_flowspec;
        next_hop = [];
        announced_routes = flowspec filters ∷ [];
      }))
  announce_nlri attributes u _ = panic

  unfoldable pub create_update : Session → ExportedUpdate → Outcome E Update
  unfolding announce_nlri base_attributes
  create_update s u = announce_nlri (base_attributes s.config u) u u.nlri
