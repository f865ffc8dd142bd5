-- ===== src/Api/Routes.antt =====
-- src/api/routes.rs: an entry of the table as the interface shows it.
use bgpd_rs.Base.{ℕ, ◌/◌, List, [], ◌∷◌, map}
use bgpd_rs.Base.Text.{Text, text}
use bgpd_rs.Bgp.{Segment, as_sequence, as_set, NlriEncoding, AsPath}
use bgpd_rs.Api.Rpc.{LearnedRoute}
use bgpd_rs.Rib.Community.Notation.{join, show_community}
use bgpd_rs.Rib.Entry.{ExportEntry}
use bgpd_rs.Session.HoldTimer.{nanos}
use bgpd_rs.Show.{show_source}
use bgpd_rs.Utils.Api.{TextApi}
use bgpd_rs.Utils.Display.{format_time_as_elapsed, u32_to_dotted}

asns_of : Segment → List ℕ
asns_of (as_sequence asns) = asns
asns_of (as_set asns) = asns

show_segment : Segment → Text
unfolding asns_of
show_segment segment = join (b' ' ∷ []) (map (λ asn. u32_to_dotted asn b'.') (asns_of segment))

unfoldable pub show_as_path : AsPath → Text
unfolding show_segment
show_as_path path = join (text "; ") (map show_segment path.segments)

module _ (api : TextApi) where
  unfoldable pub show_nlri : NlriEncoding → Text
  show_nlri (NlriEncoding.ip prefix) = api.show_prefix prefix
  show_nlri (NlriEncoding.flowspec filters) = join (text "; ") (map api.show_filter filters)
  show_nlri (NlriEncoding.other_nlri n) = api.show_other_nlri n

  unfoldable pub entry_to_route : ExportEntry → ℕ → LearnedRoute
  entry_to_route entry now = record {
    source = show_source api entry.source;
    afi = api.show_afi entry.update.family.afi;
    safi = api.show_safi entry.update.family.safi;
    received_at = entry.timestamp / nanos;
    age = format_time_as_elapsed entry.timestamp now;
    prefix = show_nlri entry.update.nlri;
    next_hop = entry.update.attributes.next_hop;
    origin = api.show_origin entry.update.attributes.origin;
    as_path = show_as_path entry.update.attributes.as_path;
    local_pref = entry.update.attributes.local_pref;
    multi_exit_disc = entry.update.attributes.multi_exit_disc;
    communities = map (show_community api) entry.update.attributes.communities;
  }
