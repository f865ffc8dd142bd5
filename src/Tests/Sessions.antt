-- ===== src/Tests/Sessions.antt =====
-- src/session: the theorems about a session at concrete sessions and messages.
use bgpd_rs.Base.{
  ◌<◌, ◌*◌, ◌≡◌, ◌≢◌, ◌⊎◌, refl, ◌↔◌, true, [], ◌∷◌, some, ok, err, arith, flat_map, retain, map,
  ◌++◌,
}
use bgpd_rs.Rib.Families
use bgpd_rs.Rib.Families.{to_open_param}
use bgpd_rs.Bgp.{
  as_sequence, igp, PathAttribute, update_msg, Afi-discrete, Safi-discrete, open_msg, keep_alive,
  Update, v4, v6, ipv6, unicast, ip,
}
use bgpd_rs.Rib.Attributes.{from_attributes, from_group}
use bgpd_rs.Rib.Entry.{ExportedUpdate}
use bgpd_rs.Session.Capabilities.{common, common_capabilities}
use bgpd_rs.Session.Error.{SessionError, finite_state_machine, open_asn_mismatch}
use bgpd_rs.Session.HoldTimer
use bgpd_rs.Session.HoldTimer.{HoldTimer, should_send_keepalive}
use bgpd_rs.Session.HoldTimer.Due.{should_send_keepalive-due}
use bgpd_rs.Session.Machine.{
  reply, asn_from_open, open_received, process_message, fsm_err_for_state,
}
use bgpd_rs.Session.Machine.Refusals.{taken_over, IsUnexpected, process_message-refused}
use bgpd_rs.Session.Machine.Transitions.{Moves, process_message-Moves}
use bgpd_rs.Session.Peer.{Session, open_confirm, established, update_state}
use bgpd_rs.Session.Updates.{create_update, sent_path, own_path}
use bgpd_rs.Session.Run.{advertise_pending, advertise_each, send_or_fail, pending_routes}
use bgpd_rs.Session.Run.Advertised.{advertise_pending-sent}
use bgpd_rs.Rib.SessionRoutes as Routes
use bgpd_rs.Rib.SessionRoutes.{insert_routes, mark_advertised}
use bgpd_rs.Base.{collect, List, contains, filter_map, ℕ_discrete}
use bgpd_rs.Base.Map
use bgpd_rs.Session.Peer.{SessionState-discrete, send_message}
use bgpd_rs.Base.Bytes.{octets}
use bgpd_rs.Session.Counts
use bgpd_rs.Config.{is_ebgp, AdvertiseSource-discrete}
use bgpd_rs.Rib.Community.{all_standard, all_extended}
use bgpd_rs.Rib.Families.{Family-discrete}
use bgpd_rs.Session.Updates.Announced.{read_back, create_update-ipv4}
use bgpd_rs.Tests.Data.{
  unicast_v4, lib, from_parameters, no_capabilities, session_in, open_from, learned_attributes,
  api_entry, silent_timer, ten_slash_eight, documentation_prefix, peer_config,
}

process_message-Moves_example : Moves keep_alive open_confirm established
process_message-Moves_example =
    process_message-Moves from_parameters keep_alive (session_in open_confirm) 5
      {s' = session_in established} {r = reply keep_alive}
      (unfold process_message update_state in refl)

abbrev negotiated : Session
negotiated = record (session_in open_confirm) {
  router_id = v4 0x02020202;
  hold_timer = HoldTimer.new 30 5;
  capabilities = no_capabilities;
}

-- An OPEN from the right AS reaches a session that is established.
abbrev unexpected : Session
unexpected = taken_over from_parameters (session_in established) (open_from 100) 5

unexpected_lem :
    process_message from_parameters (session_in established) (open_msg (open_from 100)) 5
    ≡ err (finite_state_machine 3, unexpected)
unfolding process_message open_received asn_from_open common_capabilities flat_map Families.new
    common retain fsm_err_for_state
unexpected_lem = refl

process_message-refused_example :
    ((asn_from_open (open_from 100) ≢ 100)
      × (finite_state_machine 3 ≡ open_asn_mismatch (asn_from_open (open_from 100)) 100)
      × (unexpected ≡ session_in established))
    ⊎ ((asn_from_open (open_from 100) ≡ 100)
        × IsUnexpected from_parameters (session_in established) (finite_state_machine 3)
        × (unexpected ≡ unexpected))
process_message-refused_example =
    process_message-refused from_parameters (session_in established) (open_from 100) 5
      {e = finite_state_machine 3} {s' = unexpected} unexpected_lem

should_send_keepalive-due_example :
    (should_send_keepalive silent_timer 30000000001 ≡ ok true) ↔ (30 * 1000000000 < 30000000001)
should_send_keepalive-due_example =
    should_send_keepalive-due silent_timer 30000000001 refl (omega arith) (omega arith)
      (omega arith)

create_update-ipv4_example :
    (upd : Update) × (create_update {E = SessionError} (session_in established) api_entry.update
      ≡ ok upd)
    × (upd.announced_routes ≡ ip ten_slash_eight ∷ [])
    × (upd.withdrawn_routes ≡ [])
    × (from_group {E = SessionError} (from_attributes lib upd.attributes)
        ≡ ok (read_back peer_config api_entry.update (some (v4 0x7f000002))))
create_update-ipv4_example =
    create_update-ipv4 lib (λ a. refl) (session_in established) api_entry.update ten_slash_eight
      refl refl (unfold Afi-discrete Safi-discrete in refl)

abbrev v6_update : ExportedUpdate
v6_update = record {
  family = record { afi = ipv6; safi = unicast };
  attributes = record learned_attributes { next_hop = some (v6 1) };
  nlri = ip documentation_prefix;
}

-- One route of the API is pending.
abbrev announcing : Session
announcing = record (session_in established) {
  routes = insert_routes (Routes.new (record { set = unicast_v4 ∷ [] })) (api_entry ∷ []);
}

abbrev announced : Update
announced = record {
  withdrawn_routes = [];
  attributes =
      PathAttribute.origin igp
      ∷ PathAttribute.next_hop (v4 0x7f000002)
      ∷ PathAttribute.local_pref 100
      ∷ PathAttribute.as_path (record { segments = as_sequence (70000 ∷ 100 ∷ []) ∷ [] })
      ∷ PathAttribute.multi_exit_disc 10
      ∷ [];
  announced_routes = ip ten_slash_eight ∷ [];
}

abbrev after_announcing : Session
after_announcing = record announcing {
  protocol = record announcing.protocol { attempts = 1; sent = update_msg announced ∷ [] };
  counts = record { received = 0; sent = 1 };
  hold_timer = HoldTimer.sent silent_timer 5;
  routes = mark_advertised announcing.routes api_entry;
}

announcing_lem : advertise_pending announcing 5 ≡ ok after_announcing
unfolding advertise_pending SessionState-discrete advertise_each pending_routes retain
    Routes.pending insert_routes Map.insert Routes.new contains Map.get Families.contains
    Family-discrete AdvertiseSource-discrete create_update send_or_fail send_message sent_path
    all_standard Counts.increment_sent octets filter_map Afi-discrete Safi-discrete is_ebgp
    all_extended mark_advertised HoldTimer.sent own_path ℕ_discrete
announcing_lem = refl

advertise_pending-sent_example :
    (us : List Update) × (collect
        (λ e. create_update {E = SessionError × Session} announcing e.update)
        (pending_routes announcing)
      ≡ ok us)
    × (update_msg announced ∷ [] ≡ [] ++ map update_msg us)
advertise_pending-sent_example =
    advertise_pending-sent announcing 5 {s' = after_announcing} refl announcing_lem
