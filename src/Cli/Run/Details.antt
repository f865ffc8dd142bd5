-- ===== src/Cli/Run/Details.antt =====
-- src/cli/mod.rs and src/api: the details of the peers that the daemon gives can be printed.
use bgpd_rs.Base.{ℕ, ◌≡◌, refl, List, [], ◌∷◌, ◌++◌, map, Option, none, some, ok, retain, not}
use bgpd_rs.Base.Within.{Every, Every-append}
use bgpd_rs.Api.Handler.{ApiError, show_peer_detail}
use bgpd_rs.Api.Handler.Listing.{peer_list, is_connected_host, show_peer_detail-peer_list}
use bgpd_rs.Api.Peers.{peer_to_detail, peer_to_summary}
use bgpd_rs.Api.Rpc.{PeerDetail}
use bgpd_rs.Base.Text.{Text}
use bgpd_rs.Bgp.{SocketAddr}
use bgpd_rs.Cli.Args.{Show, neighbors, NeighborOptions, detail, ShowOptions}
use bgpd_rs.Cli.Args as Args
use bgpd_rs.Cli.Run.{
  Client, Printed, line, detail_lines, session_lines, print_details, run_cmd, run_show,
}
use bgpd_rs.Config.{PeerConfig}
use bgpd_rs.Handler.{State}
use bgpd_rs.Rib.{get_routes}
use bgpd_rs.Rib.Entry.{ExportEntry}
use bgpd_rs.Rib.Community.Notation.{join}
use bgpd_rs.Session.Peer.{Session}
use bgpd_rs.Session.Poller.{NetworkApi}
use bgpd_rs.Utils.Api.{TextApi}

module _ (api : TextApi) where
  abbrev Printable : PeerDetail → Type 0
  Printable peer = (lines : List Text) × (detail_lines api peer ≡ ok lines)

  module _ (net : NetworkApi) (local_addr : Session → Option SocketAddr) where
    peer_to_detail-Printable :
        (config : PeerConfig) (session : Option Session) (n : Option ℕ) (now : ℕ)
        → Printable (peer_to_detail api net local_addr config session n now)
    unfolding peer_to_detail peer_to_summary detail_lines session_lines
    peer_to_detail-Printable config none n now = (_, refl)
    peer_to_detail-Printable config (some s) n now = (_, refl)

    Every-map_to {ℓ} :
        {A : Type ℓ} (f : A → PeerDetail) (xs : List A)
        → ((x : A) → Printable (f x))
        → Every Printable (map f xs)
    Every-map_to f [] h = tt
    Every-map_to f (x ∷ xs) h = (h x, Every-map_to f xs h)

    print_details-total :
        (peers : List PeerDetail)
        → Every Printable peers
        → (out : List Printed) × (print_details api peers ≡ ok out)
    unfolding print_details
    print_details-total [] h = (_, refl)
    print_details-total (p ∷ ps) ((lines, h), hs) =
        let (rest, hr) = print_details-total ps hs in
        (line (join (10 ∷ b' ' ∷ b' ' ∷ []) lines ++ 10 ∷ []) ∷ rest, rw (h, hr) refl)

    -- Where the table can be listed, the details that the daemon gives of its peers can all be printed:
    -- no value that the command takes for granted is missing.
    pub run_cmd-details :
        (s : State) (now : ℕ) (client : Client) (options : NeighborOptions) {all : List ExportEntry}
        → get_routes {E = ApiError} s.rib ≡ ok all
        → ((details : List PeerDetail)
            → show_peer_detail api net local_addr s now ≡ ok details
            → client.show_peer_detail ≡ ok details)
        → options.options ≡ some detail
        → (out : List Printed) × (run_cmd api client (Args.show (neighbors options)) ≡ ok out)
    unfolding run_cmd run_show
    run_cmd-details s now client options {all} listed answers wanted =
        let rows =
          peer_list api net local_addr
            (λ x n. peer_to_detail api net local_addr x.config (some x) (some n) now)
            (λ c. peer_to_detail api net local_addr c none none now) s all in
        let given = answers rows (show_peer_detail-peer_list api net local_addr s now listed) in
        let (out, printed) = print_details-total rows (
          Every-append Printable _ _
            (Every-map_to _ s.sessions.sessions
              (λ p. peer_to_detail-Printable p.1.config (some p.1) _ now))
            (Every-map_to _
              (retain (λ c. not (is_connected_host api net local_addr s c)) s.sessions.config.peers)
              (λ config. peer_to_detail-Printable config none none now))) in
        (out, rw (wanted, given) printed)
