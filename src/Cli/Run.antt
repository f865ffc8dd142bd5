-- ===== src/Cli/Run.antt =====
-- src/cli/mod.rs: the commands. The client that `jsonrpsee` makes of the trait `Api` is a parameter.
pub mod Details
pub mod Apart
pub mod Groups
pub mod Listed
pub mod Order
pub mod Tables
use bgpd_rs.Base.{
  ℕ, ◌<◌, ltb, Bool, true, false, ◌&&◌, ◌||◌, not, if◌then◌else◌, List, [], ◌∷◌, ◌++◌, map, Option,
  none, some, Outcome, ok, err, panic, expect, ◌>>=◌, ◌==◌, nat_Eq,
}
use bgpd_rs.Base.Text.{Text, text, text_Eq, decimal}
use bgpd_rs.Bgp.{IpNetwork}
use bgpd_rs.Api.Rpc.{PeerSummary, PeerDetail, LearnedRoute}
use bgpd_rs.Cli.Args.{
  Command, run, show, advertise, Show, neighbors, routes, Routes, learned, advertised, detail,
  Advertise, route, flow, route_spec, flow_spec,
}
use bgpd_rs.Cli.Display.{
  Row, peer_columns, peer_row, learned_columns, learned_row, advertised_columns, advertised_row,
}
use bgpd_rs.Config.Specs.{RouteSpec, FlowSpec}
use bgpd_rs.Rib.Community.Notation.{join}
use bgpd_rs.Utils.Api.{TextApi}

-- The calls of `ApiClient`, with its errors by number.
pub record Client : Type 0 where
  pub show_peers : Outcome ℕ (List PeerSummary)
  pub show_peer_detail : Outcome ℕ (List PeerDetail)
  pub show_routes_learned : Option IpNetwork → Outcome ℕ (List LearnedRoute)
  pub show_routes_advertised : Option IpNetwork → Outcome ℕ (List LearnedRoute)
  pub advertise_route : RouteSpec → Outcome ℕ LearnedRoute
  pub advertise_flow : FlowSpec → Outcome ℕ LearnedRoute

-- A line, an `OutputTable` with its titles and rows, and a line of `eprintln!` with an error.
pub data Printed : Type 0 where
  line : Text → Printed
  table : Row → List Row → Printed
  complaint : Text → ℕ → Printed
  invalid_family : Printed

-- The order of texts, and of pairs of them.
pub compare_texts : Text → Text → Bool
compare_texts [] u = true
compare_texts (c ∷ t) [] = false
compare_texts (c ∷ t) (d ∷ u) = let rest = compare_texts t u in ltb c d || (c == d && rest)

pub before : LearnedRoute → LearnedRoute → Bool
unfolding compare_texts
before r s = if r.afi == s.afi then compare_texts r.safi s.safi else compare_texts r.afi s.afi

-- `sort_by_key` is stable.
place : LearnedRoute → List LearnedRoute → List LearnedRoute
unfolding before
place r [] = r ∷ []
place r (s ∷ ss) = let later = place r ss in if before r s then r ∷ s ∷ ss else s ∷ later

unfoldable pub sorted : List LearnedRoute → List LearnedRoute
unfolding place
sorted [] = []
sorted (r ∷ rs) = place r (sorted rs)

-- `group_by`: neighbours with the same key.
join_first :
    (LearnedRoute → Text) → LearnedRoute → List (List LearnedRoute) → List (List LearnedRoute)
join_first key r [] = (r ∷ []) ∷ []
join_first key r ([] ∷ groups) = (r ∷ []) ∷ groups
join_first key r ((s ∷ ss) ∷ groups) =
    if key r == key s then (r ∷ s ∷ ss) ∷ groups else (r ∷ []) ∷ (s ∷ ss) ∷ groups

unfoldable pub group_by : (LearnedRoute → Text) → List LearnedRoute → List (List LearnedRoute)
unfolding join_first
group_by key [] = []
group_by key (r ∷ rs) = join_first key r (group_by key rs)

module _ (api : TextApi) where
  pair_text : Text → Text → Text → Text
  pair_text a middle b = a ++ (middle ++ b)

  connection_lines : Option (Text × Text) → List Text
  connection_lines none = []
  connection_lines (some (ours, theirs)) =
      (text "  Local address: " ++ ours) ∷ (text "  Remote address: " ++ theirs) ∷ []

  -- The lines of a peer with a session; an `unwrap` of what is missing panics.
  session_lines : PeerDetail → Outcome ℕ (List Text)
  unfolding connection_lines pair_text
  session_lines peer = elim peer.summary.router_id [
    | none ↦ ok []
    | some router_id ↦ do
      uptime ← expect peer.summary.uptime
      hold_time ← expect peer.hold_time
      last_received ← expect peer.last_received
      last_sent ← expect peer.last_sent
      ok (
          (text "BGP version 4,  remote router-id " ++ api.show_ip router_id)
          ∷ (connection_lines peer.tcp_connection
              ++ ((text "BGP state = " ++ pair_text peer.summary.state (text ", up for ") uptime)
                  ∷ (text "Hold time is "
                      ++ pair_text (decimal peer.hold_timer) (text " (") (
                          hold_time
                          ++ (text "), keepalive interval is "
                              ++ decimal peer.hold_timer_interval)))
                  ∷ (text "  Last read "
                      ++ pair_text last_received (text ", last write ") last_sent)
                  ∷ [])))
  ]

  -- What the pattern calls `sent` is the number of messages received, and the other way round.
  statistics_lines : Option ℕ → Option ℕ → List Text
  unfolding pair_text
  statistics_lines (some sent) (some rcvd) =
      text "Message Statistics:"
      ∷ text "                    Sent      Received"
      ∷ (text "  Total             " ++ pair_text (decimal sent) (text "        ") (decimal rcvd))
      ∷ []
  statistics_lines _ _ = []

  unfoldable pub detail_lines : PeerDetail → Outcome ℕ (List Text)
  unfolding session_lines statistics_lines
  detail_lines peer = do
    session ← session_lines peer
    ok (
        (text "BGP neighbor is "
          ++ (peer.summary.peer
              ++ (text ",  remote AS "
                  ++ (decimal peer.summary.remote_asn
                      ++ (text ", local AS " ++ decimal peer.summary.local_asn)))))
        ∷ ((if peer.summary.enabled then [] else text "*Peer is Disabled" ∷ [])
            ++ (session
                ++ (text "Neighbor capabilities:"
                    ∷ (map (λ c. text "  " ++ c) peer.capabilities
                        ++ ([]
                            ∷ statistics_lines peer.summary.msg_received peer.summary.msg_sent))))))

  print_details : List PeerDetail → Outcome ℕ (List Printed)
  print_details [] = ok []
  print_details (peer ∷ peers) = do
    lines ← detail_lines peer
    rest ← print_details peers
    ok (line (join (10 ∷ b' ' ∷ b' ' ∷ []) lines ++ 10 ∷ []) ∷ rest)

  -- The tables of one family, and those of all.
  print_family : (LearnedRoute → Row) → Row → Text → List (List LearnedRoute) → List Printed
  unfolding pair_text
  print_family row columns afi [] = []
  print_family row columns afi ([] ∷ groups) = print_family row columns afi groups
  print_family row columns afi ((r ∷ rs) ∷ groups) =
      line (pair_text afi (text " / ") r.safi)
      ∷ table columns (map row (r ∷ rs))
      ∷ line []
      ∷ print_family row columns afi groups

  print_families : (LearnedRoute → Row) → Row → List (List LearnedRoute) → List Printed
  unfolding print_family
  print_families row columns [] = []
  print_families row columns ([] ∷ groups) = print_families row columns groups
  print_families row columns ((r ∷ rs) ∷ groups) =
      print_family row columns r.afi (group_by (λ s. s.safi) (r ∷ rs))
      ++ print_families row columns groups

  pub print_routes : (LearnedRoute → Row) → Row → List LearnedRoute → List Printed
  unfolding print_families
  print_routes row columns rs = print_families row columns (group_by (λ s. s.afi) (sorted rs))

  print_added : Text → Text → Outcome ℕ LearnedRoute → Outcome ℕ (List Printed)
  print_added done failed (ok added) =
      ok (line done ∷ table learned_columns (learned_row api added ∷ []) ∷ [])
  print_added done failed (err e) = ok (complaint failed e ∷ [])
  print_added done failed panic = panic

  module _ (client : Client) where
    run_show : Show → Outcome ℕ (List Printed)
    unfolding print_details print_routes
    run_show (neighbors options) = elim options.options [
      | some detail ↦ do peers ← client.show_peer_detail; print_details peers
      | none ↦ do peers ← client.show_peers; ok (table peer_columns (map (peer_row api) peers) ∷ [])
    ]
    run_show (routes (learned options)) = do
      rs ← client.show_routes_learned options.peer
      ok (print_routes (learned_row api) learned_columns rs)
    run_show (routes (advertised options)) = do
      rs ← client.show_routes_advertised options.peer
      ok (print_routes (advertised_row api) advertised_columns rs)

    run_advertise : Advertise → Outcome ℕ (List Printed)
    unfolding print_added
    run_advertise (route r) =
        print_added (text "Added route to RIB for announcement:") (text "Error adding route: ")
          (client.advertise_route (route_spec r))
    run_advertise (flow f) = elim (flow_spec api f) [
      | none ↦ ok (invalid_family ∷ [])
      | some spec ↦
          print_added (text "Added flow to RIB for announcement:") (text "Error adding flow: ")
            (client.advertise_flow spec)
    ]

    -- `run` is handled in `main`.
    unfoldable pub run_cmd : Command → Outcome ℕ (List Printed)
    unfolding run_show run_advertise
    run_cmd (run _) = panic
    run_cmd (show s) = run_show s
    run_cmd (advertise a) = run_advertise a
