-- ===== src/Session/Run/Sound.antt =====
-- src/session/lib.rs: what holds of a session in every state that it can be in.
pub mod Sending
pub mod Turns
pub mod Messages
pub mod Advertising
use bgpd_rs.Base.{
  ℕ, ◌≡◌, refl, ◌∙◌, ap, Bool, true, false, not, ◌⊎◌, inl, inr, List, [], ◌∷◌, ◌++◌, contains,
  Outcome, ok, err, panic, ◌>>=◌, ◌==◌,
}
use bgpd_rs.Base.Within.{Within, Every, Every-map}
use bgpd_rs.Bgp.{
  IpAddr, Message, open_msg, keep_alive, update_msg, notification_msg, route_refresh, Open, Update,
  v4, Capabilities,
}
use bgpd_rs.Rib.Families.{Families}
use bgpd_rs.Config.{PeerConfig, AdvertiseSource, advertise_Eq}
use bgpd_rs.Rib.Entry.{EntrySource, ExportEntry, peer, source_Eq}
use bgpd_rs.Session.Error.{SessionError}
use bgpd_rs.Session.Machine.{Failing, asn_from_open, min16, families_of}
use bgpd_rs.Session.Peer.{Session, open_confirm, established}
use bgpd_rs.Session.Run.{Event, incoming, advertise_source}
use bgpd_rs.Session.Updates.{create_update}
use bgpd_rs.Session.Updates.Infallible.{NoErr}

-- What has happened to a session: the configurations that it has had, the messages that it has
-- received and the routes that it has taken from the table, the last ones first.
pub record Past : Type 0 where
  pub configs : List PeerConfig
  pub messages : List Message
  pub routes : List ExportEntry

-- An UPDATE of a route that the session has taken from the table, that was not learned from the
-- peer itself and has a source that a configuration of the session advertises.
pub record IsAllowed (past : Past) (ip : IpAddr) (u : Update) : Type 0 where
  pub entry : ExportEntry
  pub given : Within entry past.routes
  pub sender : Session
  pub config : Within sender.config past.configs
  pub elsewhere : not (entry.source == peer ip) ≡ true
  pub source : contains (advertise_source entry.source) sender.config.advertise_sources ≡ true
  pub made : create_update {E = SessionError × Session} sender entry.update ≡ ok u

abbrev pub Allowed : Past → IpAddr → Message → Type 0
Allowed past ip (update_msg u) = IsAllowed past ip u
Allowed past ip _ = Unit

abbrev pub NoUpdate : Message → Type 0
NoUpdate (update_msg u) = ⊥
NoUpdate _ = Unit

-- An OPEN that the session has received, from the AS of a configuration that it had, and what was
-- taken over from it.
pub record IsAccepted (past : Past) (router_id : IpAddr) (hold_timer : ℕ) (families : Families)
    (capabilities : Capabilities) : Type 0 where
  pub message : Open
  pub heard : Within (open_msg message) past.messages
  pub config : PeerConfig
  pub known : Within config past.configs
  pub right_asn : asn_from_open message ≡ config.remote_as
  pub router : router_id ≡ v4 message.identifier
  pub smaller : hold_timer ≡ min16 message.hold_timer config.hold_timer
  pub common : families ≡ families_of capabilities.mp_bgp_support

abbrev pub Accepted : Past → Session → Type 0
Accepted past s =
    IsAccepted past s.router_id s.hold_timer.hold_timer s.routes.families s.capabilities

-- A route that was taken from the table and was not learned from the peer itself.
abbrev pub Held : Past → IpAddr → ExportEntry → Type 0
Held past ip x = (not (x.source == peer ip) ≡ true) × Within x past.routes

-- An event of a turn that belongs to the past after it.
abbrev pub Heard : Past → Event → Type 0
Heard past (incoming m) = Within m past.messages
Heard past _ = Unit

pub record IsSound (addr : IpAddr) (past : Past) (s : Session) : Type 0 where
  pub at : s.addr ≡ addr
  pub config : Within s.config past.configs
  pub routes : Every (λ r. Held past s.addr r.1) s.routes.routes
  pub allowed : Every (Allowed past s.addr) s.protocol.sent
  pub quiet : (s.state ≡ established) ⊎ Every NoUpdate s.protocol.sent
  pub accepted : (s.state ≡ open_confirm) ⊎ (s.state ≡ established) → Accepted past s

-- A past that has all of another one.
pub record Grows (past later : Past) : Type 0 where
  pub configs : (c : PeerConfig) → Within c past.configs → Within c later.configs
  pub messages : (m : Message) → Within m past.messages → Within m later.messages
  pub routes : (x : ExportEntry) → Within x past.routes → Within x later.routes

module _ {past later : Past} (grows : Grows past later) where
  Allowed-Grows : (ip : IpAddr) (m : Message) → Allowed past ip m → Allowed later ip m
  Allowed-Grows ip (update_msg u) a = record {
    entry = a.entry;
    given = grows.routes a.entry a.given;
    sender = a.sender;
    config = grows.configs a.sender.config a.config;
    elsewhere = a.elsewhere;
    source = a.source;
    made = a.made;
  }
  Allowed-Grows ip _ a = tt

  pub IsSound-Grows : (addr : IpAddr) (s : Session) → IsSound addr past s → IsSound addr later s
  IsSound-Grows addr s w = record {
    at = w.at;
    config = grows.configs s.config w.config;
    routes =
        Every-map (λ r. Held past s.addr r.1) (λ r. Held later s.addr r.1)
          (λ r (far, held). (far, grows.routes r.1 held)) s.routes.routes w.routes;
    allowed = Every-map _ _ (Allowed-Grows s.addr) s.protocol.sent w.allowed;
    quiet = w.quiet;
    accepted = λ c.
        let a = w.accepted c in
        record {
          message = a.message;
          heard = grows.messages (open_msg a.message) a.heard;
          config = a.config;
          known = grows.configs a.config a.known;
          right_asn = a.right_asn;
          router = a.router;
          smaller = a.smaller;
          common = a.common;
        };
  }

-- A property of the session that a call leaves behind, whether it fails or not.
abbrev pub Leaves {ℓ κ} :
    {X : Type ℓ} {A : Type κ}
    → (A → Session)
    → (Session → Type 0)
    → Outcome (X × Session) A
    → Type 0
Leaves after P (ok a) = P (after a)
Leaves after P (err (e, s)) = P s
Leaves after P panic = Unit

pub Leaves-bind {ℓ κ μ} :
    {X : Type ℓ} {A : Type κ} {B : Type μ} (first : A → Session) (second : B → Session)
    (P : Session → Type 0) (m : Outcome (X × Session) A) (f : A → Outcome (X × Session) B)
    → Leaves first P m
    → ((a : A) → m ≡ ok a → P (first a) → Leaves second P (f a))
    → Leaves second P (m >>= f)
Leaves-bind first second P (ok a) f h k = k a refl h
Leaves-bind first second P (err (e, s)) f h k = h
Leaves-bind first second P panic f h k = tt

-- A call with no error of its own leaves the session that it was made in.
pub Leaves-NoErr {ℓ κ} :
    {X : Type ℓ} {A : Type κ} (P : Session → Type 0) (s : Session) (m : Outcome (X × Session) A)
    → NoErr m
    → P s
    → Leaves (λ a. s) P m
Leaves-NoErr P s (ok a) h w = w
Leaves-NoErr P s (err e) h w = elim h [ ]
Leaves-NoErr P s panic h w = tt
