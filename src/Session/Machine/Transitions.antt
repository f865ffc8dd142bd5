-- ===== src/Session/Machine/Transitions.antt =====
-- src/session/lib.rs: the state machine of a session.
use bgpd_rs.Base.{
  ℕ, ◌≡◌, refl, sym, ap, subst, List, [], ◌∷◌, ◌++◌, map, some, flat_map, ok, >>=-eq-ok, nat_Eq,
  nat_eq_iff, arith,
}
use mathlib.Core.List.{append-nil}
use bgpd_rs.Bgp.{
  Message, open_msg, keep_alive, Open, OpenCapability, four_byte_asn, OpenParameter, capabilities,
  Capabilities, v4,
}
use bgpd_rs.Rib.Families.{Family, to_open_param}
use bgpd_rs.Session.Capabilities.{common_capabilities}
use bgpd_rs.Session.Error.{SessionError}
use bgpd_rs.Session.HoldTimer
use bgpd_rs.Session.HoldTimer.{HoldTimer}
use bgpd_rs.Session.Machine.{
  MessageResponse, first_asn, caps_of, asn_from_open, open_received, min16, families_of, confirm,
  process_open, process_keep_alive, process_message,
}
use bgpd_rs.Session.Peer.{
  Session, SessionState, connect, open_sent, open_confirm, established, update_state, create_open,
}

-- The moves of the state machine, each with the message that makes it.
pub data Moves : Message → SessionState → SessionState → Type 0 where
  stays : (m : Message) (a : SessionState) → Moves m a a
  replies_open : (o : Open) → Moves (open_msg o) connect open_confirm
  confirms : (o : Open) → Moves (open_msg o) open_sent open_confirm
  establishes : Moves keep_alive open_confirm established

first_asn-families :
    (fs : List Family) (asn : ℕ)
    → first_asn (map to_open_param fs ++ four_byte_asn asn ∷ []) ≡ some asn
unfolding first_asn to_open_param
first_asn-families [] asn = refl
first_asn-families (f ∷ fs) asn = first_asn-families fs asn

flat-caps : (cs : List OpenCapability) → flat_map caps_of (capabilities cs ∷ []) ≡ cs
unfolding flat_map caps_of
flat-caps cs = append-nil cs

-- A peer reads the local AS number out of the OPEN that a session makes, above 65535 too.
pub asn_from_open-create_open :
    (s : Session) {o : Open}
    → create_open {E = SessionError} s ≡ ok o
    → asn_from_open o ≡ s.config.local_as
unfolding create_open asn_from_open
asn_from_open-create_open s h = ground (
  arith,
  flat-caps (map to_open_param s.config.families ++ four_byte_asn s.config.local_as ∷ []),
  first_asn-families s.config.families s.config.local_as,
)

module _ (from_parameters : List OpenParameter → Capabilities) where
  confirm-Moves :
      (a : SessionState) (s : Session) (o : Open) {s' : Session} {r : MessageResponse}
      → s.state ≡ a
      → confirm from_parameters a s ≡ ok (s', r)
      → Moves (open_msg o) s.state s'.state
  unfolding confirm update_state
  confirm-Moves connect s o {s'} e h =
      let (o', ho, hr) = >>=-eq-ok (create_open _) _ h in
      let to : open_confirm ≡ s'.state = ground arith in
      subst (λ b. Moves (open_msg o) s.state b) to
        (subst (λ a. Moves (open_msg o) a open_confirm) (sym e) (replies_open o))
  confirm-Moves open_sent s o {s'} e h =
      let to : open_confirm ≡ s'.state = ground arith in
      subst (λ b. Moves (open_msg o) s.state b) to
        (subst (λ a. Moves (open_msg o) a open_confirm) (sym e) (confirms o))
  confirm-Moves _ s o e h = cc

  process_keep_alive-Moves :
      (a : SessionState) (s : Session)
      → s.state ≡ a
      → Moves keep_alive s.state (process_keep_alive from_parameters a s).0.state
  unfolding process_keep_alive update_state
  process_keep_alive-Moves open_confirm s e =
      subst (λ a. Moves keep_alive a established) (sym e) establishes
  process_keep_alive-Moves _ s e = stays keep_alive s.state

  open_received-ok :
      (s : Session) (o : Open) {c : Capabilities} {t : ℕ} {s' : Session}
      → open_received from_parameters s o ≡ ok (c, t, s')
      → (asn_from_open o ≡ s.config.remote_as)
        × (common_capabilities s.capabilities (from_parameters o.parameters) ≡ ok c)
        × (t ≡ min16 o.hold_timer s.config.hold_timer)
        × (s' ≡ record s { router_id = v4 o.identifier })
  unfolding open_received
  open_received-ok s o h = ground (arith, nat_eq_iff (asn_from_open o) s.config.remote_as)

  process_open-Moves :
      (s : Session) (o : Open) (now : ℕ) {s' : Session} {r : MessageResponse}
      → process_open from_parameters s o now ≡ ok (s', r)
      → Moves (open_msg o) s.state s'.state
  unfolding process_open
  process_open-Moves s o now {s'} h =
      let ((c, t, s₁), hr, hc) = >>=-eq-ok (open_received from_parameters s o) _ h in
      let (_, _, _, same) = open_received-ok s o hr in
      let kept : s₁.state ≡ s.state = ap (λ (x : Session). x.state) same in
      subst (λ a. Moves (open_msg o) a s'.state) kept (confirm-Moves s₁.state _ o refl hc)

  -- Whatever message a session accepts, its state stays or makes one of the three moves: an OPEN
  -- leads from Connect or OpenSent to OpenConfirm, and a KEEPALIVE from there to Established.
  pub process_message-Moves :
      (m : Message) (s : Session) (now : ℕ) {s' : Session} {r : MessageResponse}
      → process_message from_parameters s m now ≡ ok (s', r)
      → Moves m s.state s'.state
  unfolding process_message
  process_message-Moves (open_msg o) s now h = process_open-Moves s o now h
  process_message-Moves keep_alive s now {s'} h =
      let same : (process_keep_alive from_parameters s.state s).0 ≡ s' = ground arith in
      subst (λ (x : Session). Moves keep_alive s.state x.state) same
        (process_keep_alive-Moves s.state s refl)
  process_message-Moves m s now {s'} h =
      let same : s ≡ s' = ground arith in
      subst (λ (x : Session). Moves m s.state x.state) same (stays m s.state)

  -- What holds after an accepted OPEN.
  pub record IsNegotiated (s : Session) (o : Open) (now : ℕ) (s' : Session) : Type 0 where
    pub right_asn : asn_from_open o ≡ s.config.remote_as
    pub common :
        common_capabilities s.capabilities (from_parameters o.parameters) ≡ ok s'.capabilities
    pub families : s'.routes.families ≡ families_of s'.capabilities.mp_bgp_support
    pub hold_timer : s'.hold_timer ≡ HoldTimer.new (min16 o.hold_timer s.config.hold_timer) now
    pub router_id : s'.router_id ≡ v4 o.identifier
    pub config : s'.config ≡ s.config
