-- ===== src/Session/Run/Advertised.antt =====
-- src/session/lib.rs: what an established session sends of its pending routes.
use bgpd_rs.Base.{
  ℕ, ◌≡◌, refl, ap, ◌∙◌, sym, List, [], ◌∷◌, ◌++◌, map, ok, >>=-eq-ok, collect, arith,
}
use mathlib.Core.List.{append-nil, append_assoc}
use bgpd_rs.Bgp.{Message, update_msg, Update}
use bgpd_rs.Rib.Entry.{ExportEntry, ExportedUpdate}
use bgpd_rs.Rib.SessionRoutes.{mark_advertised}
use bgpd_rs.Session.Error.{SessionError}
use bgpd_rs.Session.Machine.{Failing}
use bgpd_rs.Session.Peer.{Session, established, state_Eq, send_message}
use bgpd_rs.Session.Run.{send_or_fail, advertise_each, advertise_pending, pending_routes}
use bgpd_rs.Session.Updates.{create_update}

send_or_fail-ok :
    (s : Session) (message : Message) (now : ℕ) {s' : Session}
    → send_or_fail s message now ≡ ok s'
    → (s'.protocol.sent ≡ s.protocol.sent ++ message ∷ []) × (s'.config ≡ s.config)
unfolding send_or_fail send_message
send_or_fail-ok s message now h = ground arith

create_update-config {ℓ} :
    {E : Type ℓ} (s s' : Session) (u : ExportedUpdate)
    → s'.config ≡ s.config
    → create_update {E = E} s' u ≡ create_update s u
unfolding create_update
create_update-config s s' u e = rw e refl

updates : Session → List ExportEntry → Failing (List Update)
updates s = collect λ e. create_update s e.update

updates-config :
    (s s' : Session) (es : List ExportEntry) → s'.config ≡ s.config → updates s' es ≡ updates s es
unfolding updates collect
updates-config s s' [] e = refl
updates-config s s' (x ∷ xs) e =
    rw (create_update-config s s' x.update e, updates-config s s' xs e) refl

updates-cons :
    (s : Session) (entry : ExportEntry) (entries : List ExportEntry) {u : Update} {us : List Update}
    → create_update {E = SessionError × Session} s entry.update ≡ ok u
    → updates s entries ≡ ok us
    → updates s (entry ∷ entries) ≡ ok (u ∷ us)
unfolding updates collect
updates-cons s entry entries hu hus = rw (hu, hus) refl

ok-inj : {s s' : Session} → Path (Failing Session) (ok s) (ok s') → s ≡ s'
ok-inj h = cc

advertise_each-sent :
    (entries : List ExportEntry) (s : Session) (now : ℕ) {s' : Session}
    → advertise_each s entries now ≡ ok s'
    → (us : List Update) × (updates s entries ≡ ok us)
      × (s'.protocol.sent ≡ s.protocol.sent ++ map update_msg us)
unfolding advertise_each updates collect
advertise_each-sent [] s now h = (
  [],
  refl,
  ap (λ (x : Session). x.protocol.sent) (sym (ok-inj h)) ∙ sym (append-nil s.protocol.sent),
)
advertise_each-sent (entry ∷ entries) s now {s'} h =
    let (u, hu, h₁) = >>=-eq-ok (create_update s entry.update) _ h in
    let (s₁, hs, h₂) = >>=-eq-ok (send_or_fail s (update_msg u) now) _ h₁ in
    let (sent, config) = send_or_fail-ok s (update_msg u) now hs in
    let s₂ : Session = record s₁ { routes = mark_advertised s₁.routes entry } in
    let (us, hus, all) = advertise_each-sent entries s₂ now {s' = s'} h₂ in
    let rest : updates s entries ≡ ok us = sym (updates-config s s₂ entries config) ∙ hus in
    (
      u ∷ us,
      updates-cons s entry entries hu rest,
      all
          ∙ ap (λ xs. xs ++ map update_msg us) sent
          ∙ append_assoc s.protocol.sent (update_msg u ∷ []) (map update_msg us),
    )

-- If an established session gets through its pending routes, it has sent the UPDATE messages of
-- exactly the pending routes with a source that it advertises, each once and in order, after
-- what it had sent before.
pub advertise_pending-sent :
    (s : Session) (now : ℕ) {s' : Session}
    → s.state ≡ established
    → advertise_pending s now ≡ ok s'
    → (us : List Update) × (collect
          (λ e. create_update {E = SessionError × Session} s e.update)
          (pending_routes s)
        ≡ ok us)
      × (s'.protocol.sent ≡ s.protocol.sent ++ map update_msg us)
unfolding advertise_pending updates
advertise_pending-sent s now {s'} state h =
    let sends : advertise_each s (pending_routes s) now ≡ ok s' =
      rw ((state_Eq.eq_iff s.state established).1 state) at h in
    advertise_each-sent (pending_routes s) s now sends
