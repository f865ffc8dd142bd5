-- ===== src/Session/Peer.antt =====
-- src/session/lib.rs and src/session/mod.rs: a session, its construction and the sending of
-- messages. The connection is a parameter of the model: what each send will give (`none`, or the
-- number of an `io::Error`), with the messages handed over so far, the last one last.
use bgpd_rs.Base.{
  ℕ, suc, Bool, if◌then◌else◌, List, [], ◌∷◌, ◌++◌, map, Option, none, some, Outcome, ok, err,
  panic, expect, ◌>>=◌, ◌==◌, nat_Eq, ltb, Eq, derived_eq,
}
use bgpd_rs.Bgp.{
  IpAddr, v4, v6, SocketAddr, Message, notification_msg, Open, four_byte_asn, OpenParameter,
  capabilities, Capabilities,
}
use bgpd_rs.Config.{PeerConfig}
use bgpd_rs.Rib.Families
use bgpd_rs.Rib.Families.{Families, Family, to_open_param}
use bgpd_rs.Rib.SessionRoutes as Routes
use bgpd_rs.Rib.SessionRoutes.{SessionRoutes}
use bgpd_rs.Session.Counts
use bgpd_rs.Session.Counts.{MessageCounts}
use bgpd_rs.Session.HoldTimer
use bgpd_rs.Session.HoldTimer.{HoldTimer}

pub data SessionState : Type 0 where
  connect active idle open_sent open_confirm established : SessionState

unfoldable pub SessionState-discrete : Discrete SessionState
SessionState-discrete = hlevel

instance abbrev pub state_Eq : Eq SessionState
state_Eq = derived_eq SessionState-discrete

pub record Protocol : Type 0 where
  pub peer_addr : Option SocketAddr
  pub attempts : ℕ
  pub outcome : ℕ → Option ℕ
  pub sent : List Message

pub record Session : Type 0 where
  pub addr : IpAddr
  pub state : SessionState
  pub router_id : IpAddr
  pub config : PeerConfig
  pub protocol : Protocol
  pub connect_time : ℕ
  pub hold_timer : HoldTimer
  pub counts : MessageCounts
  pub routes : SessionRoutes
  pub capabilities : Capabilities

module _ (from_parameters : List OpenParameter → Capabilities) where
  unfoldable pub new {ℓ} : {E : Type ℓ} → PeerConfig → Protocol → ℕ → Outcome E Session
  new config protocol now = do
    peer ← expect protocol.peer_addr
    ok (record {
      addr = peer.addr;
      state = connect;
      router_id = peer.addr;
      config = config;
      protocol = protocol;
      connect_time = now;
      hold_timer = HoldTimer.new config.hold_timer now;
      counts = Counts.new;
      routes = Routes.new (Families.new []);
      capabilities =
          from_parameters
            (capabilities (four_byte_asn config.local_as ∷ map to_open_param config.families) ∷ []);
    })

unfoldable pub is_locally_initiated {ℓ} : {E : Type ℓ} → Session → Outcome E Bool
is_locally_initiated s = do peer ← expect s.protocol.peer_addr; ok (peer.port == s.config.dest_port)

unfoldable pub update_state : Session → SessionState → Session
update_state s state = record s { state = state }

unfoldable pub update_config : Session → PeerConfig → Session
update_config s config = record s { config = config }

-- The protocol after one more send that gave `result`.
attempted : Protocol → Protocol
attempted p = record p { attempts = suc p.attempts }

unfoldable pub deliver : Session → Message → ℕ → Option ℕ → Outcome (ℕ × Session) Session
unfolding attempted
deliver s message now (some e) = err (e, record s { protocol = attempted s.protocol })
deliver s message now none = ok (record s {
  protocol = record (attempted s.protocol) { sent = s.protocol.sent ++ message ∷ [] };
  counts = Counts.increment_sent s.counts;
  hold_timer = HoldTimer.sent s.hold_timer now;
})

unfoldable pub send_message : Session → Message → ℕ → Outcome (ℕ × Session) Session
unfolding deliver
send_message s message now = deliver s message now (s.protocol.outcome s.protocol.attempts)

unfoldable pub notify : Session → ℕ → ℕ → ℕ → Outcome (ℕ × Session) Session
notify s maj min now =
    send_message s (notification_msg (record { major_err_code = maj; minor_err_code = min })) now

unfoldable pub create_open {ℓ} : {E : Type ℓ} → Session → Outcome E Open
create_open s = elim s.config.local_router_id [
  | v6 _ ↦ panic
  | v4 ipv4 ↦ ok (record {
    version = 4;
    peer_asn = if ltb s.config.local_as 65535 then s.config.local_as else 23456;
    hold_timer = s.hold_timer.hold_timer;
    identifier = ipv4;
    parameters =
        capabilities (map to_open_param s.config.families ++ four_byte_asn s.config.local_as ∷ [])
        ∷ [];
  })
]
