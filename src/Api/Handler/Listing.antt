-- ===== src/Api/Handler/Listing.antt =====
-- src/api/handler.rs: what the lists of peers and of routes say of the sessions and of the table.
use bgpd_rs.Base.{
  ℕ, ◌/◌, ◌≡◌, refl, ap, ◌∙◌, Bool, true, false, not, ◌&&◌, if◌then◌else◌, List, [], ◌∷◌, ◌++◌, map,
  Option, none, some, length, retain, retain_congr, contains, Outcome, ok, collect, ◌==◌, nat_Eq,
  arith,
}
use mathlib.Core.Path.{ap₂, fun_ext}
use mathlib.Core.List.{map-append}
use bgpd_rs.Base.Map
use bgpd_rs.Base.Map.{Map}
use bgpd_rs.Base.Text.{text}
use bgpd_rs.Api.Handler.{ApiError, each_session, show_each, show_peers, show_peer_detail, is_idle}
use bgpd_rs.Api.Peers.{configured_peer, configured_state, peer_to_summary, peer_to_detail}
use bgpd_rs.Api.Rpc.{PeerSummary, PeerDetail}
use bgpd_rs.Bgp.{IpAddr, ip_addr_Eq, SocketAddr}
use bgpd_rs.Config.{PeerConfig}
use bgpd_rs.Handler.{State}
use bgpd_rs.Rib.{get_routes}
use bgpd_rs.Rib.Entry.{peer, source_Eq, ExportEntry}
use bgpd_rs.Rib.Routes.{get_routes-split}
use bgpd_rs.Session.HoldTimer.{nanos}
use bgpd_rs.Session.Peer.{Session}
use bgpd_rs.Session.Poller.{NetworkApi, get_host_address}
use bgpd_rs.Show.{show_state}
use bgpd_rs.Utils.Api.{TextApi}
use bgpd_rs.Utils.Display.{format_time_as_elapsed}

-- The listed routes that were learned from a peer.
abbrev pub learned_from : List ExportEntry → IpAddr → List ExportEntry
learned_from all ip = retain (λ x. x.source == peer ip) all

pub collect-map {ℓ κ μ} :
    {E : Type ℓ} {A : Type κ} {B : Type μ} (f : A → Outcome E B) (g : A → B) (xs : List A)
    → ((x : A) → f x ≡ ok (g x))
    → collect f xs ≡ ok (map g xs)
unfolding collect
collect-map f g [] h = refl
collect-map f g (x ∷ xs) h = rw (h x, collect-map f g xs h) refl

map-map {ℓ κ μ} :
    {A : Type ℓ} {B : Type κ} {C : Type μ} (g : B → C) (f : A → B) (xs : List A)
    → map g (map f xs) ≡ map (λ x. g (f x)) xs
map-map g f [] = refl
map-map g f (x ∷ xs) = ap (λ ys. g (f x) ∷ ys) (map-map g f xs)

contains_key-contains {ℓ} :
    {A : Type ℓ} (ip : IpAddr) (m : Map IpAddr A)
    → Map.contains_key ip m ≡ contains ip (map (λ p. p.0) m)
unfolding contains Map.get
contains_key-contains ip [] = refl
contains_key-contains ip ((j, a) ∷ m) =
    ground (arith, contains_key-contains ip m, ip_addr_Eq.eq_iff j ip, ip_addr_Eq.eq_iff ip j)

-- A session as the summary shows it, with the number of routes learned from its peer.
abbrev pub session_summary : TextApi → Session → ℕ → ℕ → PeerSummary
session_summary api s learned now = record {
  peer = api.show_ip s.addr;
  enabled = s.config.enabled;
  router_id = some s.router_id;
  remote_asn = s.config.remote_as;
  local_asn = s.config.local_as;
  msg_received = some s.counts.received;
  msg_sent = some s.counts.sent;
  connect_time = some (s.connect_time / nanos);
  uptime = some (format_time_as_elapsed s.connect_time now);
  state = show_state s.state;
  prefixes_received = some learned;
}

module _ (api : TextApi) (net : NetworkApi) (local_addr : Session → Option SocketAddr) where
  -- A configuration as the summary shows it.
  abbrev pub config_summary : PeerConfig → PeerSummary
  config_summary c = record {
    peer =
        if net.size c.remote_ip == 1
        then api.show_ip (net.ip c.remote_ip)
        else api.show_network c.remote_ip;
    enabled = c.enabled;
    router_id = none;
    remote_asn = c.remote_as;
    local_asn = c.local_as;
    msg_received = none;
    msg_sent = none;
    connect_time = none;
    uptime = none;
    state =
        if c.enabled then (if c.passive then text "Idle" else text "Active") else text "Disabled";
    prefixes_received = none;
  }

  -- A single host whose address has a session.
  abbrev pub is_connected_host : State → PeerConfig → Bool
  is_connected_host s c =
      net.size c.remote_ip == 1
      && contains (net.ip c.remote_ip) (map (λ p. p.0) s.sessions.sessions)

  is_idle-is_connected_host :
      (s : State) (c : PeerConfig) → is_idle api net local_addr s c ≡ not (is_connected_host s c)
  unfolding get_host_address
  is_idle-is_connected_host s c = host (net.size c.remote_ip == 1)
    where
      host :
          (b : Bool)
          → (elim (if b then some (net.ip c.remote_ip) else none) [
            | none ↦ true
            | some ip ↦ not (Map.contains_key ip s.sessions.sessions)
          ])
            ≡ not (b && contains (net.ip c.remote_ip) (map (λ p. p.0) s.sessions.sessions))
      host true = ap not (contains_key-contains (net.ip c.remote_ip) s.sessions.sessions)
      host false = refl

  -- What a list of peers should be: the sessions, then the configurations but those of single
  -- hosts that have a session.
  abbrev pub peer_list :
      {B : Type 0} → (Session → ℕ → B) → (PeerConfig → B) → State → List ExportEntry → List B
  peer_list session config s all =
      map (λ (p : IpAddr × Session). session p.1 (length (learned_from all p.0)))
        s.sessions.sessions
      ++ map config (retain (λ c. not (is_connected_host s c)) s.sessions.config.peers)

  show_each-peer_list :
      {B : Type 0} (make : PeerConfig → Option Session → Option ℕ → ℕ → B) (s : State) (now : ℕ)
      {all : List ExportEntry}
      → get_routes {E = ApiError} s.rib ≡ ok all
      → show_each api net local_addr make s now
        ≡ ok (
            peer_list
              (λ x n. make x.config (some x) (some n) now)
              (λ c. make c none none now)
              s
              all)
  unfolding show_each each_session
  show_each-peer_list make s now {all} h =
      rw
        (
          retain_congr (is_idle api net local_addr s) (λ c. not (is_connected_host s c))
              s.sessions.config.peers (is_idle-is_connected_host s),
          collect-map (each_session api net local_addr make s.rib now)
              (λ (p : IpAddr × Session).
                make p.1.config (some p.1) (some (length (learned_from all p.0))) now)
              s.sessions.sessions (λ p. rw ((get_routes-split s.rib p.0 h).0) refl),
        )
        refl

  pub show_peer_detail-peer_list :
      (s : State) (now : ℕ) {all : List ExportEntry}
      → get_routes {E = ApiError} s.rib ≡ ok all
      → show_peer_detail api net local_addr s now
        ≡ ok (
            peer_list
              (λ x n. peer_to_detail api net local_addr x.config (some x) (some n) now)
              (λ c. peer_to_detail api net local_addr c none none now)
              s
              all)
  unfolding show_peer_detail
  show_peer_detail-peer_list s now h =
      show_each-peer_list (peer_to_detail api net local_addr) s now h

  named :
      (c : PeerConfig)
      → configured_peer api net local_addr c ≡ (
          if net.size c.remote_ip == 1
          then api.show_ip (net.ip c.remote_ip)
          else api.show_network c.remote_ip)
  unfolding configured_peer get_host_address
  named c = host (net.size c.remote_ip == 1)
    where
      host :
          (b : Bool)
          → (elim (if b then some (net.ip c.remote_ip) else none) [
            | none ↦ api.show_network c.remote_ip
            | some addr ↦ api.show_ip addr
          ])
            ≡ (if b then api.show_ip (net.ip c.remote_ip) else api.show_network c.remote_ip)
      host true = refl
      host false = refl

  stated :
      (c : PeerConfig)
      → configured_state api net local_addr c ≡ (
          if c.enabled then (if c.passive then text "Idle" else text "Active") else text "Disabled")
  unfolding configured_state show_state
  stated c = states c.enabled c.passive
    where
      states :
          (enabled passive : Bool)
          → (if not enabled
              then text "Disabled"
              else if not passive
              then text "Active"
              else text "Idle")
            ≡ (if enabled
                then (if passive then text "Idle" else text "Active")
                else text "Disabled")
      states true true = refl
      states true false = refl
      states false passive = refl

  peer_to_summary-config_summary :
      (now : ℕ) (c : PeerConfig)
      → peer_to_summary api net local_addr c none none now ≡ config_summary c
  unfolding peer_to_summary
  peer_to_summary-config_summary now c = rw (named c, stated c) refl

  -- Where the table can be listed, the list of peers shows every session once, with its own values
  -- and the number of the listed routes that were learned from its address, and then every
  -- configuration, in their order, but those of single hosts that have a session; and the list with
  -- the details has the same summaries in the same order.
  pub show_peers-peer_list :
      (s : State) (now : ℕ) {all : List ExportEntry}
      → get_routes {E = ApiError} s.rib ≡ ok all
      → (show_peers api net local_addr s now
          ≡ ok (peer_list (λ x n. session_summary api x n now) config_summary s all))
        × ((details : List PeerDetail) × (show_peer_detail api net local_addr s now ≡ ok details)
            × (map (λ d. d.summary) details
                ≡ peer_list (λ x n. session_summary api x n now) config_summary s all))
  unfolding show_peers peer_to_summary peer_to_detail
  show_peers-peer_list s now {all} h =
      let summaries =
        λ (f : PeerConfig → PeerSummary). peer_list (λ x n. session_summary api x n now) f s all in
      let same = fun_ext (peer_to_summary-config_summary now) in
      (
        show_each-peer_list (peer_to_summary api net local_addr) s now h
            ∙ ap (λ f. ok (summaries f)) same,
        (
          _,
          show_peer_detail-peer_list s now h,
          map-append (λ (d : PeerDetail). d.summary) _ _
              ∙ ap₂ (λ xs ys. xs ++ ys) (map-map _ _ s.sessions.sessions) (map-map _ _ _)
              ∙ ap summaries same,
        ),
      )
