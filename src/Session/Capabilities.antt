-- ===== src/Session/Capabilities.antt =====
-- src/session/lib.rs: the capabilities that both sides have.
use bgpd_rs.Base.{not, ◌&&◌, is_empty, retain, contains, Outcome, ok, nat_Eq}
use bgpd_rs.Base.Map
use bgpd_rs.Bgp.{Capabilities, afi_safi_Eq}
use bgpd_rs.Session.Error.{SessionError}

unfoldable pub common : Capabilities → Capabilities → Capabilities
common a b =
    let add_path = retain (λ e. Map.contains_key e.0 b.add_path_support) a.add_path_support in
    record {
      mp_bgp_support = retain (λ f. contains f b.mp_bgp_support) a.mp_bgp_support;
      route_refresh_support = a.route_refresh_support && b.route_refresh_support;
      outbound_route_filtering_support =
          retain (λ f. contains f b.outbound_route_filtering_support)
            a.outbound_route_filtering_support;
      extended_next_hop_encoding = a.extended_next_hop_encoding;
      bgpsec_support = a.bgpsec_support && b.bgpsec_support;
      multiple_labels_support =
          retain (λ e. Map.contains_key e.0 b.multiple_labels_support) a.multiple_labels_support;
      graceful_restart_support =
          retain (λ f. contains f b.graceful_restart_support) a.graceful_restart_support;
      four_octet_asn_support = a.four_octet_asn_support && b.four_octet_asn_support;
      add_path_support = add_path;
      extended_path_nlri_support = not (is_empty add_path);
      enhanced_route_refresh_support =
          a.enhanced_route_refresh_support && b.enhanced_route_refresh_support;
      long_lived_graceful_restart = a.long_lived_graceful_restart && b.long_lived_graceful_restart;
    }

-- The intersection never fails.
unfoldable pub common_capabilities : Capabilities → Capabilities → Outcome SessionError Capabilities
common_capabilities a b = ok (common a b)
