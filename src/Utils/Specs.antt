-- ===== src/Utils/Specs.antt =====
-- src/utils/parse.rs: what the table takes of the specification of a route or of a flow.
pub mod Attributes
use bgpd_rs.Base.{
  ℕ, Bool, if◌then◌else◌, is_empty, List, [], ◌∷◌, ◌++◌, map, Option, none, some, Outcome, ok,
  or_err, map_err, collect, ◌>>=◌, ◌==◌,
}
use bgpd_rs.Base.Text.{Text, text, text_Eq}
use bgpd_rs.Bgp.{
  IpAddr, Origin, igp, egp, incomplete, PathAttribute, NlriEncoding, as_sequence, unicast,
  safi_flowspec,
}
use bgpd_rs.Config.Specs.{SpecAttributes, RouteSpec, FlowSpec}
use bgpd_rs.Rib.Community.{Community, all_standard, all_extended}
use bgpd_rs.Rib.Community.Notation.{try_from}
use bgpd_rs.Rib.Families.{Family}
use bgpd_rs.Utils.Api.{TextApi, FilterLimits}
use bgpd_rs.Utils.Error.{ParseError, bad_asn, bad_community, bad_afi}
use bgpd_rs.Utils.Flow.{parse_flowspec_action, action_attribute, parse_flowspec_match}
use bgpd_rs.Utils.Numbers.{asn_from_dotted, prefix_from_network}

abbrev pub Parts : Type 0
Parts = Family × (List PathAttribute × NlriEncoding)

-- An attribute for a value that is there, and one for a list that is not empty.
optional {ℓ} : {A : Type ℓ} → (A → PathAttribute) → Option A → List PathAttribute
optional make none = []
optional make (some a) = make a ∷ []

unless_empty : (List ℕ → PathAttribute) → List ℕ → List PathAttribute
unless_empty make xs = if is_empty xs then [] else make xs ∷ []

unfoldable pub parse_asns : List Text → Outcome ParseError (List ℕ)
parse_asns = collect (λ asn. map_err bad_asn (asn_from_dotted asn))

unfoldable pub parse_communities : List Text → Outcome ParseError (List Community)
parse_communities = collect (λ comm. map_err (λ _. bad_community) (try_from comm))

-- The attributes in the order in which the code pushes them.
unfoldable pub built : Origin → Option ℕ → Option ℕ → List ℕ → List ℕ → List ℕ → List PathAttribute
unfolding optional unless_empty
built o local_pref multi_exit_disc asns standards extendeds =
    PathAttribute.origin o
    ∷ (optional PathAttribute.local_pref local_pref
        ++ (optional PathAttribute.multi_exit_disc multi_exit_disc
            ++ (PathAttribute.as_path (record { segments = as_sequence asns ∷ [] })
                ∷ (unless_empty PathAttribute.community standards
                    ++ unless_empty PathAttribute.extended_communities extendeds))))

module _ (api : TextApi) where
  unfoldable pub origin_of : Option Text → Origin
  origin_of none = incomplete
  origin_of (some o) =
      if api.lower o == text "igp"
      then igp
      else if api.lower o == text "egp"
      then egp
      else incomplete

  unfoldable pub parse_attributes : SpecAttributes → Outcome ParseError (List PathAttribute)
  unfolding built
  parse_attributes attrs = do
    asns ← parse_asns attrs.as_path
    comms ← parse_communities attrs.communities
    ok (
        built (origin_of attrs.origin) attrs.local_pref attrs.multi_exit_disc asns
          (all_standard comms) (all_extended comms))

  unfoldable pub parse_route_spec : RouteSpec → Outcome ParseError Parts
  parse_route_spec spec = do
    let prefix = prefix_from_network spec.prefix
    attributes ← parse_attributes spec.attributes
    ok (
      record { afi = prefix.protocol; safi = unicast },
      (attributes ++ PathAttribute.next_hop spec.next_hop ∷ [], NlriEncoding.ip prefix),
    )

  unfoldable pub parse_flow_spec : FilterLimits → FlowSpec → Outcome ParseError Parts
  parse_flow_spec limits spec = do
    afi ← or_err (api.try_afi spec.afi) (bad_afi spec.afi)
    attributes ← parse_attributes spec.attributes
    action ← parse_flowspec_action api spec.action
    attribute ← action_attribute action
    filters ← collect (parse_flowspec_match api limits) spec.matches
    ok (
      record { afi = afi; safi = safi_flowspec },
      (attributes ++ attribute ∷ [], NlriEncoding.flowspec filters),
    )
