-- ===== src/Session/Run/Sound/Messages.antt =====
-- src/session/lib.rs: the messages that a session receives keep it sound.
use bgpd_rs.Base.{ℕ, ◌≡◌, ◌≢◌, refl, inl, inr, List, Outcome, ◌==◌, nat_Eq, nat_eq_iff, Bool-cases}
use bgpd_rs.Base.Within.{Within, Every}
use bgpd_rs.Bgp.{
  IpAddr, v4, v6, Message, open_msg, keep_alive, update_msg, notification_msg, route_refresh, Open,
  OpenParameter, Capabilities,
}
use bgpd_rs.Session.Capabilities.{common, common_capabilities}
use bgpd_rs.Session.Error.{SessionError}
use bgpd_rs.Session.HoldTimer
use bgpd_rs.Session.Machine.{
  MessageResponse, reply, asn_from_open, open_received, min16, families_of, confirm, process_open,
  process_keep_alive, process_message,
}
use bgpd_rs.Session.Peer.{
  Session, SessionState, connect, active, idle, open_sent, open_confirm, established, update_state,
  create_open,
}
use bgpd_rs.Session.Run.Sound.{
  Past, Allowed, NoUpdate, Accepted, IsSound, Leaves, Leaves-bind, Leaves-NoErr,
}
use bgpd_rs.Session.Updates.Infallible.{NoErr}

with_router {ℓ} :
    (E : Type ℓ) (s : Session) (a : IpAddr)
    → s.config.local_router_id ≡ a
    → NoErr (create_open {E = E} s)
unfolding create_open
with_router E s (v4 n) e = rw (NoErr, e) tt
with_router E s (v6 n) e = rw (NoErr, e) tt

pub create_open-NoErr {ℓ} : (E : Type ℓ) (s : Session) → NoErr (create_open {E = E} s)
create_open-NoErr E s = with_router E s s.config.local_router_id refl

-- What a session answers with is no UPDATE.
abbrev pub Plain : MessageResponse → Type 0
Plain (reply m) = NoUpdate m
Plain _ = Unit

pub NoUpdate-Allowed : (past : Past) (ip : IpAddr) (m : Message) → NoUpdate m → Allowed past ip m
NoUpdate-Allowed past ip (update_msg u) h = elim h [ ]
NoUpdate-Allowed past ip (open_msg o) h = tt
NoUpdate-Allowed past ip keep_alive h = tt
NoUpdate-Allowed past ip (notification_msg n) h = tt
NoUpdate-Allowed past ip (route_refresh f) h = tt

-- Before it is established, a session has sent no UPDATE.
pub quiet_before :
    (addr : IpAddr) (past : Past) (s : Session)
    → IsSound addr past s
    → s.state ≢ established
    → Every NoUpdate s.protocol.sent
quiet_before addr past s w h = elim w.quiet [ inl e ↦ absurd (h e) | inr q ↦ q ]

module _ (addr : IpAddr) (past : Past) (from_parameters : List OpenParameter → Capabilities) where
  abbrev Answered : Outcome (SessionError × Session) (Session × MessageResponse) → Type 0
  Answered = Leaves (λ a. a.0) (IsSound addr past)

  -- A session that has just accepted an OPEN may go on to wait for its confirmation.
  to_confirm :
      (s : Session)
      → Accepted past s
      → Every NoUpdate s.protocol.sent
      → IsSound addr past s
      → IsSound addr past (update_state s open_confirm)
  unfolding update_state
  to_confirm s a quiet w = record {
    at = w.at;
    config = w.config;
    routes = w.routes;
    allowed = w.allowed;
    quiet = inr quiet;
    accepted = λ h. a;
  }

  confirm-IsSound :
      (a : SessionState) (s : Session)
      → s.state ≡ a
      → Accepted past s
      → IsSound addr past s
      → Answered (confirm from_parameters a s)
  unfolding confirm update_state
  confirm-IsSound connect s e accepted w =
      let w' = to_confirm s accepted (quiet_before addr past s w (λ h. cc)) w in
      Leaves-bind (λ o. update_state s open_confirm) (λ r. r.0) (IsSound addr past)
        (create_open (update_state s open_confirm)) _
        (Leaves-NoErr (IsSound addr past) (update_state s open_confirm)
          (create_open (update_state s open_confirm))
          (create_open-NoErr (SessionError × Session) (update_state s open_confirm)) w')
        (λ o made _. w')
  confirm-IsSound open_sent s e accepted w =
      to_confirm s accepted (quiet_before addr past s w (λ h. cc)) w
  confirm-IsSound active s e accepted w = w
  confirm-IsSound idle s e accepted w = w
  confirm-IsSound open_confirm s e accepted w = w
  confirm-IsSound established s e accepted w = w

  -- What an accepted OPEN changes in a session.
  abbrev taken_over : Session → Open → ℕ → Session
  taken_over s o now =
      let c = common s.capabilities (from_parameters o.parameters) in
      record s {
        router_id = v4 o.identifier;
        routes = record s.routes { families = families_of c.mp_bgp_support };
        capabilities = c;
        hold_timer = HoldTimer.new (min16 o.hold_timer s.config.hold_timer) now;
      }

  taken_over-Accepted :
      (s : Session) (o : Open) (now : ℕ)
      → Within (open_msg o) past.messages
      → asn_from_open o ≡ s.config.remote_as
      → IsSound addr past s
      → Accepted past (taken_over s o now)
  unfolding HoldTimer.new
  taken_over-Accepted s o now heard right w = record {
    message = o;
    heard = heard;
    config = s.config;
    known = w.config;
    right_asn = right;
    router = refl;
    smaller = refl;
    common = refl;
  }

  process_open-IsSound :
      (s : Session) (o : Open) (now : ℕ)
      → Within (open_msg o) past.messages
      → IsSound addr past s
      → Answered (process_open from_parameters s o now)
  unfolding process_open open_received common_capabilities
  process_open-IsSound s o now heard w = elim (Bool-cases (asn_from_open o == s.config.remote_as)) [
    | inl e ↦
        let a =
          taken_over-Accepted s o now heard ((nat_eq_iff (asn_from_open o) s.config.remote_as).0 e)
            w in
        rw e (
          confirm-IsSound s.state (taken_over s o now) refl a (record {
            at = w.at;
            config = w.config;
            routes = w.routes;
            allowed = w.allowed;
            quiet = w.quiet;
            accepted = λ h. a;
          }))
    | inr e ↦ rw e w
  ]

  process_keep_alive-IsSound :
      (a : SessionState) (s : Session)
      → s.state ≡ a
      → IsSound addr past s
      → IsSound addr past (process_keep_alive from_parameters a s).0
  unfolding process_keep_alive update_state
  process_keep_alive-IsSound open_confirm s e w = record {
    at = w.at;
    config = w.config;
    routes = w.routes;
    allowed = w.allowed;
    quiet = inl refl;
    accepted = λ h. w.accepted (inl e);
  }
  process_keep_alive-IsSound connect s e w = w
  process_keep_alive-IsSound active s e w = w
  process_keep_alive-IsSound idle s e w = w
  process_keep_alive-IsSound open_sent s e w = w
  process_keep_alive-IsSound established s e w = w

  pub process_message-IsSound :
      (s : Session) (m : Message) (now : ℕ)
      → Within m past.messages
      → IsSound addr past s
      → Answered (process_message from_parameters s m now)
  unfolding process_message
  process_message-IsSound s (open_msg o) now heard w = process_open-IsSound s o now heard w
  process_message-IsSound s keep_alive now heard w = process_keep_alive-IsSound s.state s refl w
  process_message-IsSound s (update_msg u) now heard w = w
  process_message-IsSound s (notification_msg n) now heard w = w
  process_message-IsSound s (route_refresh f) now heard w = w
