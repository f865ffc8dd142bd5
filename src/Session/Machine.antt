-- ===== src/Session/Machine.antt =====
-- src/session/lib.rs: what a session does with a message that it received.
pub mod Transitions
pub mod Refusals
use bgpd_rs.Base.{
  ℕ, Bool, true, false, if◌then◌else◌, List, [], ◌∷◌, ◌++◌, map, Option, none, some, flat_map,
  Outcome, ok, err, panic, ◌>>=◌, ◌==◌, nat_Eq, leb,
}
use bgpd_rs.Bgp.{
  IpAddr, v4, Message, open_msg, keep_alive, update_msg, notification_msg, route_refresh, Update,
  Open, OpenCapability, four_byte_asn, OpenParameter, capabilities, Capabilities, AfiSafi,
}
use bgpd_rs.Rib.Families
use bgpd_rs.Rib.Families.{Families, Family}
use bgpd_rs.Session.Capabilities.{common_capabilities}
use bgpd_rs.Session.Error.{SessionError, open_asn_mismatch, finite_state_machine}
use bgpd_rs.Session.HoldTimer
use bgpd_rs.Session.Peer.{
  Session, SessionState, connect, active, idle, open_sent, open_confirm, established, update_state,
  create_open,
}

pub data MessageResponse : Type 0 where
  opened : Open → List OpenCapability → ℕ → MessageResponse
  reply : Message → MessageResponse
  update : Update → MessageResponse
  nothing : MessageResponse

unfoldable pub fsm_err_for_state : SessionState → ℕ
fsm_err_for_state open_sent = 1
fsm_err_for_state open_confirm = 2
fsm_err_for_state established = 3
fsm_err_for_state _ = 0

caps_of : OpenParameter → List OpenCapability
caps_of (capabilities caps) = caps
caps_of _ = []

first_asn : List OpenCapability → Option ℕ
first_asn [] = none
first_asn (four_byte_asn asn ∷ cs) = some asn
first_asn (_ ∷ cs) = first_asn cs

-- The 4-byte number if there is one, else the 2-byte number.
unfoldable pub asn_from_open : Open → ℕ
unfolding caps_of first_asn
asn_from_open o = elim (first_asn (flat_map caps_of o.parameters)) [
  | some asn ↦ asn
  | none ↦ o.peer_asn
]

abbrev pub Failing : Type 0 → Type 0
Failing = Outcome (SessionError × Session)

abbrev pub min16 : ℕ → ℕ → ℕ
min16 a b = if leb a b then a else b

-- `impl From<&HashSet<(AFI, SAFI)>> for Families`
unfoldable pub families_of : List AfiSafi → Families
families_of fs = Families.new (map (λ f. record { afi = f.0; safi = f.1 }) fs)

module _ (from_parameters : List OpenParameter → Capabilities) where
  unfoldable pub open_received : Session → Open → Failing (Capabilities × ℕ × Session)
  open_received s o =
      let remote_asn = asn_from_open o in
      if remote_asn == s.config.remote_as
      then (let s' = record s { router_id = v4 o.identifier } in
          elim (common_capabilities s.capabilities (from_parameters o.parameters)) [
            | ok common ↦ ok (common, min16 o.hold_timer s.config.hold_timer, s')
            | err e ↦ err (e, s')
            | panic ↦ panic
          ])
      else err (open_asn_mismatch remote_asn s.config.remote_as, s)

  -- The match on the state once an OPEN was accepted.
  unfoldable pub confirm : SessionState → Session → Failing (Session × MessageResponse)
  confirm connect s = do
    let s' = update_state s open_confirm
    o ← create_open s'
    ok (s', reply (open_msg o))
  confirm open_sent s = ok (update_state s open_confirm, reply keep_alive)
  confirm state s = err (finite_state_machine (fsm_err_for_state state), s)

  unfoldable pub process_open : Session → Open → ℕ → Failing (Session × MessageResponse)
  unfolding families_of confirm
  process_open s o now = do
    (common, hold_timer, s') ← open_received s o
    confirm s'.state (record s' {
      routes = record s'.routes { families = families_of common.mp_bgp_support };
      capabilities = common;
      hold_timer = HoldTimer.new hold_timer now;
    })

  unfoldable pub process_keep_alive : SessionState → Session → Session × MessageResponse
  process_keep_alive open_confirm s = (update_state s established, reply keep_alive)
  process_keep_alive _ s = (s, nothing)

  unfoldable pub process_message : Session → Message → ℕ → Failing (Session × MessageResponse)
  unfolding process_open process_keep_alive
  process_message s (open_msg o) now = process_open s o now
  process_message s keep_alive now = ok (process_keep_alive s.state s)
  process_message s (update_msg u) now = ok (s, update u)
  process_message s (notification_msg n) now = ok (s, nothing)
  process_message s (route_refresh f) now = ok (s, nothing)
