-- ===== src/Cli/Args.antt =====
-- src/cli/mod.rs: the arguments, as `clap` gives them, and the specifications that they make.
pub mod Paths
use bgpd_rs.Base.{ℕ, Bool, if◌then◌else◌, List, Option, none, some, ◌==◌}
use bgpd_rs.Base.Text.{Text, text, text_Eq, split}
use bgpd_rs.Bgp.{IpAddr, IpNetwork}
use bgpd_rs.Api.Rpc.{new_route, new_flow}
use bgpd_rs.Config.{unwrap_or}
use bgpd_rs.Config.Specs.{SpecAttributes, RouteSpec, FlowSpec}
use bgpd_rs.Utils.Api.{TextApi}

pub data ShowOptions : Type 0 where
  detail : ShowOptions

pub record NeighborOptions : Type 0 where
  pub peer : Option IpNetwork
  pub options : Option ShowOptions

pub record RouteOptions : Type 0 where
  pub peer : Option IpNetwork

pub data Routes : Type 0 where
  learned advertised : RouteOptions → Routes

pub data Show : Type 0 where
  neighbors : NeighborOptions → Show
  routes : Routes → Show

pub record Route : Type 0 where
  pub prefix : IpNetwork
  pub next_hop : IpAddr
  pub origin : Option Text
  pub as_path : Option Text
  pub local_pref : Option ℕ
  pub med : Option ℕ
  pub communities : Option Text

pub record Flow : Type 0 where
  pub family : Text
  pub action : Text
  pub matches : List Text
  pub origin : Option Text
  pub as_path : Option Text
  pub local_pref : Option ℕ
  pub med : Option ℕ
  pub communities : Option Text

pub data Advertise : Type 0 where
  route : Route → Advertise
  flow : Flow → Advertise

pub data Command : Type 0 where
  run : Text → Command
  show : Show → Command
  advertise : Advertise → Command

-- A value of the specification is replaced where the argument is there.
replaced {ℓ} : {A : Type ℓ} → Option A → Option A → Option A
replaced none old = old
replaced (some a) old = some a

split_words : Option Text → List Text → List Text
split_words none old = old
split_words (some t) old = split b' ' t

filled :
    SpecAttributes → Option Text → Option ℕ → Option ℕ → Option Text → Option Text → SpecAttributes
unfolding replaced split_words
filled a origin local_pref med as_path communities = record {
  origin = replaced origin a.origin;
  local_pref = replaced local_pref a.local_pref;
  multi_exit_disc = replaced med a.multi_exit_disc;
  as_path = split_words as_path a.as_path;
  communities = split_words communities a.communities;
}

unfoldable pub route_spec : Route → RouteSpec
unfolding filled
route_spec r =
    let spec = new_route r.prefix r.next_hop in
    record spec {
      attributes = filled spec.attributes r.origin r.local_pref r.med r.as_path r.communities;
    }

module _ (api : TextApi) where
  -- The number of the family; any other word ends the command.
  family_number : Text → Option ℕ
  family_number family =
      if api.lower family == text "ipv4"
      then some 1
      else if api.lower family == text "ipv6"
      then some 2
      else none

  unfoldable pub flow_spec : Flow → Option FlowSpec
  unfolding family_number filled
  flow_spec f = elim (family_number f.family) [
    | none ↦ none
    | some afi ↦
        let spec = new_flow afi f.action f.matches in
        some (record spec {
          attributes = filled spec.attributes f.origin f.local_pref f.med f.as_path f.communities;
        })
  ]
