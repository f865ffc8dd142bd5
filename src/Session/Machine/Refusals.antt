-- ===== src/Session/Machine/Refusals.antt =====
-- src/session/lib.rs: the OPEN messages that a session refuses.
use bgpd_rs.Base.{
  ℕ, ◌≡◌, ◌≢◌, refl, subst, ◌⊎◌, inl, inr, List, Bool-cases, ok, err, ◌==◌, nat_Eq, nat_eq_iff,
  arith,
}
use bgpd_rs.Bgp.{open_msg, Open, OpenParameter, Capabilities, v4}
use bgpd_rs.Session.Capabilities.{common, common_capabilities}
use bgpd_rs.Session.Error.{SessionError, open_asn_mismatch, finite_state_machine}
use bgpd_rs.Session.HoldTimer
use bgpd_rs.Session.Machine.{
  MessageResponse, fsm_err_for_state, asn_from_open, open_received, min16, families_of, confirm,
  process_open, process_message,
}
use bgpd_rs.Session.Peer.{
  Session, SessionState, connect, open_sent, open_confirm, update_state, create_open,
}
use bgpd_rs.Session.Run.Sound.Messages.{create_open-NoErr}
use bgpd_rs.Session.Updates.Infallible.{NoErr, NoErr-bind}

module _ (from_parameters : List OpenParameter → Capabilities) where
  -- The session with what it takes over from an OPEN.
  abbrev pub taken_over : Session → Open → ℕ → Session
  taken_over s o now =
      let c = common s.capabilities (from_parameters o.parameters) in
      record s {
        router_id = v4 o.identifier;
        routes = record s.routes { families = families_of c.mp_bgp_support };
        capabilities = c;
        hold_timer = HoldTimer.new (min16 o.hold_timer s.config.hold_timer) now;
      }

  -- An error in a state that expects no OPEN.
  pub record IsUnexpected (s : Session) (e : SessionError) : Type 0 where
    pub not_connect : s.state ≢ connect
    pub not_open_sent : s.state ≢ open_sent
    pub code : e ≡ finite_state_machine (fsm_err_for_state s.state)

  confirm-IsUnexpected :
      (a : SessionState) (s : Session) {e : SessionError} {s' : Session}
      → s.state ≡ a
      → confirm from_parameters a s ≡ err (e, s')
      → IsUnexpected s e × (s' ≡ s)
  unfolding confirm fsm_err_for_state
  confirm-IsUnexpected connect s {e} {s'} at h =
      let fine =
        NoErr-bind (create_open {E = SessionError × Session} (update_state s open_confirm))
          (λ o. ok (update_state s open_confirm, MessageResponse.reply (open_msg o)))
          (create_open-NoErr (SessionError × Session) (update_state s open_confirm)) (λ o. tt) in
      absurd (subst NoErr h fine)
  confirm-IsUnexpected open_sent s at h = cc
  confirm-IsUnexpected _ s at h =
      (record { not_connect = λ k. cc; not_open_sent = λ k. cc; code = ground arith }, ground arith)

  -- A session refuses an OPEN for one of two reasons: it is from another AS than the configured one,
  -- and the session is left as it was; or it is from that AS and comes in a state other than Connect and
  -- OpenSent, and the session has taken over the router id, the capabilities, the families and the hold
  -- time of the OPEN.
  pub process_message-refused :
      (s : Session) (o : Open) (now : ℕ) {e : SessionError} {s' : Session}
      → process_message from_parameters s (open_msg o) now ≡ err (e, s')
      → ((asn_from_open o ≢ s.config.remote_as)
          × (e ≡ open_asn_mismatch (asn_from_open o) s.config.remote_as)
          × (s' ≡ s))
        ⊎ ((asn_from_open o ≡ s.config.remote_as) × IsUnexpected s e × (s' ≡ taken_over s o now))
  unfolding process_message process_open open_received common_capabilities
  process_message-refused s o now {e} {s'} h =
      elim (Bool-cases (asn_from_open o == s.config.remote_as)) [
        | inl same ↦
            let asn = (nat_eq_iff (asn_from_open o) s.config.remote_as).0 same in
            let (u, left) = confirm-IsUnexpected s.state (taken_over s o now) refl (rw same at h) in
            inr (
              asn,
              record {
                not_connect = u.not_connect;
                not_open_sent = u.not_open_sent;
                code = u.code;
              },
              left,
            )
        | inr differs ↦
            let k = rw differs at h in
            inl (
              λ asn. cc ((nat_eq_iff (asn_from_open o) s.config.remote_as).1 asn, differs),
              ground arith,
              ground arith,
            )
      ]
