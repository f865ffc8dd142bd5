-- ===== src/Utils/Specs/Attributes.antt =====
-- src/utils/parse.rs: the attributes of a specification, read back out of the group of the table.
use bgpd_rs.Base.{
  ℕ, ◌≡◌, refl, ◌∙◌, ap, sym, List, [], ◌∷◌, ◌++◌, map, Option, none, some, Outcome, ok, err, panic,
  map_err, collect, filter_map, >>=-eq-ok, arith,
}
use mathlib.Core.List.{append-nil}
use bgpd_rs.Base.Text.{Text}
use bgpd_rs.Bgp.{
  IpAddr, Afi, Origin, FlowspecFilter, safi_flowspec, as_sequence, PathAttribute, NlriEncoding,
  unicast, variant, Identifier-discrete,
}
use bgpd_rs.Config.Specs.{RouteSpec, FlowSpec}
use bgpd_rs.Rib.Attributes.{AttributeApi, PathAttributes, from_attributes, from_group}
use bgpd_rs.Rib.Attributes.Reading.{NamesVariants, last_of, get-from_attributes}
use bgpd_rs.Rib.Community.{Community, standard, extended, all_standard, all_extended}
use bgpd_rs.Rib.Community.Notation.{try_from}
use bgpd_rs.Rib.Community.Notation.Reading.{try_from-standard}
use bgpd_rs.Utils.Api.{TextApi, FilterLimits}
use bgpd_rs.Utils.Error.{ParseError, bad_community}
use bgpd_rs.Utils.Flow.{FlowAction, parse_flowspec_action, action_attribute, parse_flowspec_match}
use bgpd_rs.Utils.Numbers.{prefix_from_network}
use bgpd_rs.Utils.Specs.{
  built, parse_asns, parse_communities, origin_of, parse_attributes, parse_route_spec,
  parse_flow_spec,
}

-- What a group should say of the values that it was built from.
abbrev pub attributes_from :
    Option IpAddr → Origin → Option ℕ → Option ℕ → List ℕ → List Community → PathAttributes
attributes_from next_hop origin local_pref multi_exit_disc asns comms = record {
  next_hop = next_hop;
  origin = origin;
  as_path = record { segments = as_sequence asns ∷ [] };
  local_pref = local_pref;
  multi_exit_disc = multi_exit_disc;
  communities = comms;
}

all_standard-map : (cs : List ℕ) → all_standard (map standard cs) ≡ cs
unfolding all_standard filter_map
all_standard-map [] = refl
all_standard-map (c ∷ cs) = ap (λ ds. c ∷ ds) (all_standard-map cs)

all_extended-map : (cs : List ℕ) → all_extended (map standard cs) ≡ []
unfolding all_extended filter_map
all_extended-map [] = refl
all_extended-map (c ∷ cs) = all_extended-map cs

module _ {ℓ} {E : Type ℓ} (lib : AttributeApi) (names : NamesVariants lib) where
  from_group-route :
      (next_hop : IpAddr) (o : Origin) (local_pref med : Option ℕ) (asns cs : List ℕ)
      → from_group {E = E} (
          from_attributes lib
            (built o local_pref med asns cs [] ++ PathAttribute.next_hop next_hop ∷ []))
        ≡ ok (attributes_from (some next_hop) o local_pref med asns (map standard cs ++ []))
  unfolding built from_group last_of variant Identifier-discrete
  from_group-route next_hop o none none asns [] = simp (get-from_attributes lib names) refl
  from_group-route next_hop o none none asns (c ∷ cs) = simp (get-from_attributes lib names) refl
  from_group-route next_hop o none (some m) asns [] = simp (get-from_attributes lib names) refl
  from_group-route next_hop o none (some m) asns (c ∷ cs) =
      simp (get-from_attributes lib names) refl
  from_group-route next_hop o (some l) none asns [] = simp (get-from_attributes lib names) refl
  from_group-route next_hop o (some l) none asns (c ∷ cs) =
      simp (get-from_attributes lib names) refl
  from_group-route next_hop o (some l) (some m) asns [] = simp (get-from_attributes lib names) refl
  from_group-route next_hop o (some l) (some m) asns (c ∷ cs) =
      simp (get-from_attributes lib names) refl

  from_group-flow :
      (x : ℕ) (o : Origin) (local_pref med : Option ℕ) (asns cs : List ℕ)
      → from_group {E = E} (
          from_attributes lib
            (built o local_pref med asns cs [] ++ PathAttribute.extended_communities (x ∷ []) ∷ []))
        ≡ ok (attributes_from none o local_pref med asns (map standard cs ++ extended x ∷ []))
  unfolding built from_group last_of variant Identifier-discrete
  from_group-flow x o none none asns [] = simp (get-from_attributes lib names) refl
  from_group-flow x o none none asns (c ∷ cs) = simp (get-from_attributes lib names) refl
  from_group-flow x o none (some m) asns [] = simp (get-from_attributes lib names) refl
  from_group-flow x o none (some m) asns (c ∷ cs) = simp (get-from_attributes lib names) refl
  from_group-flow x o (some l) none asns [] = simp (get-from_attributes lib names) refl
  from_group-flow x o (some l) none asns (c ∷ cs) = simp (get-from_attributes lib names) refl
  from_group-flow x o (some l) (some m) asns [] = simp (get-from_attributes lib names) refl
  from_group-flow x o (some l) (some m) asns (c ∷ cs) = simp (get-from_attributes lib names) refl

map_err-ok {ℓ κ μ} :
    {E : Type ℓ} {F : Type κ} {A : Type μ} (f : E → F) (r : Outcome E A) {a : A}
    → map_err f r ≡ ok a
    → r ≡ ok a
map_err-ok f (ok a) h = ground arith
map_err-ok f (err e) h = cc
map_err-ok f panic h = cc

parse_communities-standard :
    (texts : List Text) {comms : List Community}
    → parse_communities texts ≡ ok comms
    → (ns : List ℕ) × (comms ≡ map standard ns)
unfolding parse_communities collect
parse_communities-standard [] h = ([], ground arith)
parse_communities-standard (t ∷ ts) h =
    let (c, hc, rest) = >>=-eq-ok (map_err (λ _. bad_community) (try_from t)) _ h in
    let (cs, hcs, last) = >>=-eq-ok (parse_communities ts) _ rest in
    let (n, hn) = try_from-standard t (map_err-ok _ (try_from t) hc) in
    let (ns, hns) = parse_communities-standard ts hcs in (n ∷ ns, cc)

module _ (lib : AttributeApi) (names : NamesVariants lib) (api : TextApi) where
  -- If the AS numbers and the communities of a route are read, so is the route: its family and prefix
  -- are those of the network, and the table reads the next hop, the origin, the preference, the
  -- discriminator, the path and the communities of the specification back out of its attributes.
  pub parse_route_spec-from_group :
      (spec : RouteSpec) {asns : List ℕ} {comms : List Community}
      → parse_asns spec.attributes.as_path ≡ ok asns
      → parse_communities spec.attributes.communities ≡ ok comms
      → (attributes : List PathAttribute) × (parse_route_spec api spec
            ≡ ok (
              record { afi = (prefix_from_network spec.prefix).protocol; safi = unicast },
              (attributes, NlriEncoding.ip (prefix_from_network spec.prefix)),
            )
          × from_group {E = ParseError} (from_attributes lib attributes)
            ≡ ok (
                attributes_from
                  (some spec.next_hop)
                  (origin_of api spec.attributes.origin)
                  spec.attributes.local_pref
                  spec.attributes.multi_exit_disc
                  asns
                  comms))
  unfolding parse_route_spec parse_attributes
  parse_route_spec-from_group spec {asns} {comms} ha hc =
      let (ns, hn) = parse_communities-standard spec.attributes.communities hc in
      (
        built (origin_of api spec.attributes.origin) spec.attributes.local_pref
              spec.attributes.multi_exit_disc asns ns []
            ++ PathAttribute.next_hop spec.next_hop ∷ [],
        (
          rw (ha, hc ∙ ap ok hn, all_standard-map ns, all_extended-map ns) refl,
          from_group-route lib names spec.next_hop _ _ _ asns ns
              ∙ ap
                  (λ cs. ok (
                    attributes_from (some spec.next_hop) (origin_of api spec.attributes.origin)
                      spec.attributes.local_pref spec.attributes.multi_exit_disc asns cs))
                  (append-nil (map standard ns) ∙ sym hn),
        ),
      )

  -- If the family, the AS numbers, the communities, the action and the matches of a flow are read, so
  -- is the flow, and the table reads the values of the specification back out of its attributes, with
  -- the mark of the action as the last community and with no next hop.
  pub parse_flow_spec-from_group :
      (limits : FilterLimits) (spec : FlowSpec) {afi : Afi} {asns : List ℕ} {comms : List Community}
      {action : FlowAction} {x : ℕ} {filters : List FlowspecFilter}
      → api.try_afi spec.afi ≡ some afi
      → parse_asns spec.attributes.as_path ≡ ok asns
      → parse_communities spec.attributes.communities ≡ ok comms
      → parse_flowspec_action api spec.action ≡ ok action
      → action_attribute {E = ParseError} action ≡ ok (PathAttribute.extended_communities (x ∷ []))
      → collect (parse_flowspec_match api limits) spec.matches ≡ ok filters
      → (attributes : List PathAttribute) × (parse_flow_spec api limits spec
            ≡ ok (
              record { afi = afi; safi = safi_flowspec },
              (attributes, NlriEncoding.flowspec filters),
            )
          × from_group {E = ParseError} (from_attributes lib attributes)
            ≡ ok (
                attributes_from none
                  (origin_of api spec.attributes.origin)
                  spec.attributes.local_pref
                  spec.attributes.multi_exit_disc
                  asns
                  (comms ++ extended x ∷ [])))
  unfolding parse_flow_spec parse_attributes
  parse_flow_spec-from_group limits spec {afi} {asns} {comms} {action} {x} {filters} hf ha hc hp hx
        hm =
      let (ns, hn) = parse_communities-standard spec.attributes.communities hc in
      (
        built (origin_of api spec.attributes.origin) spec.attributes.local_pref
              spec.attributes.multi_exit_disc asns ns []
            ++ PathAttribute.extended_communities (x ∷ []) ∷ [],
        (
          rw (hf, ha, hc ∙ ap ok hn, all_standard-map ns, all_extended-map ns, hp, hx, hm) refl,
          from_group-flow lib names x _ _ _ asns ns
              ∙ ap
                  (λ cs. ok (
                    attributes_from none (origin_of api spec.attributes.origin)
                      spec.attributes.local_pref spec.attributes.multi_exit_disc asns
                      (cs ++ extended x ∷ [])))
                  (sym hn),
        ),
      )
