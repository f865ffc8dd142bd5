-- ===== src/Tests/Commands.antt =====
-- src/cli: the theorems about the commands at concrete arguments and answers.
use bgpd_rs.Base.{
  ℕ, ◌≡◌, refl, ap, List, [], ◌∷◌, none, some, Outcome, ok, err, panic, arith, flat_map, Perm,
}
use bgpd_rs.Base.Text.{Text, text}
use bgpd_rs.Base.Within.{Every}
use bgpd_rs.Api.Rpc.{LearnedRoute}
use bgpd_rs.Cli.Display.{learned_row, learned_columns}
use bgpd_rs.Cli.Run.Groups.{Groups, concat}
use bgpd_rs.Cli.Run.Apart.{Apart}
use bgpd_rs.Cli.Run.Listed.{OtherFamily, run_cmd-learned}
use bgpd_rs.Cli.Run.Tables.{family_table, OneFamily}
use bgpd_rs.Api.Handler.{ApiError, show_peer_detail}
use bgpd_rs.Api.Routes.{show_as_path}
use bgpd_rs.Bgp.{v4, v4_net, as_sequence}
use bgpd_rs.Cli.Args.{Route, NeighborOptions, detail, neighbors, show, route_spec, routes, learned}
use bgpd_rs.Cli.Args.Paths.{read_back, parse_asns-show_as_path}
use bgpd_rs.Cli.Run.{Client, Printed, run_cmd}
use bgpd_rs.Cli.Run.Details.{run_cmd-details}
use bgpd_rs.Tests.Answers.{state, learned_rib, listed_lem, no_address}
use bgpd_rs.Tests.Connections.{net}
use bgpd_rs.Tests.Data.{texts}
use bgpd_rs.Utils.Specs.{parse_asns}

abbrev relay {ℓ} : {A : Type ℓ} → Outcome ApiError A → Outcome ℕ A
relay (ok a) = ok a
relay (err e) = err 0
relay panic = err 0

-- A client of the daemon in its state; only the details are asked for.
abbrev client : Client
client = record {
  show_peers = err 1;
  show_peer_detail = relay (show_peer_detail texts net no_address (state learned_rib) 9);
  show_routes_learned = λ _. err 1;
  show_routes_advertised = λ _. err 1;
  advertise_route = λ _. err 1;
  advertise_flow = λ _. err 1;
}

abbrev with_details : NeighborOptions
with_details = record { peer = none; options = some detail }

run_cmd-details_example :
    (out : List Printed) × (run_cmd texts client (show (neighbors with_details)) ≡ ok out)
run_cmd-details_example =
    run_cmd-details texts net no_address (state learned_rib) 9 client with_details listed_lem
      (λ d h. ap relay h) refl

abbrev command : Route
command = record {
  prefix = v4_net 0x0a000000 8;
  next_hop = v4 0x01010101;
  origin = none;
  as_path = some (show_as_path (record { segments = as_sequence (100 ∷ 4259840100 ∷ []) ∷ [] }));
  local_pref = none;
  med = none;
  communities = none;
}

parse_asns-show_as_path_example :
    parse_asns (route_spec command).attributes.as_path ≡ read_back (100 ∷ 4259840100 ∷ [])
parse_asns-show_as_path_example =
    parse_asns-show_as_path command (100 ∷ 4259840100 ∷ []) (omega arith, (omega arith, tt)) refl

abbrev learned_route : Text → ℕ → LearnedRoute
learned_route safi n = record {
  source = text "10.0.0.2";
  afi = text "IPv4";
  safi = safi;
  received_at = n;
  age = text "00:00:01";
  prefix = text "10.0.0.0/8";
  next_hop = none;
  origin = text "IGP";
  as_path = [];
  local_pref = none;
  multi_exit_disc = none;
  communities = [];
}

-- Two families that alternate.
abbrev answered : List LearnedRoute
answered =
    learned_route (text "Unicast") 1
    ∷ learned_route (text "Flowspec") 2
    ∷ learned_route (text "Unicast") 3
    ∷ []

abbrev routes_client : Client
routes_client = record client { show_routes_learned = λ _. ok answered }

run_cmd-learned_example :
    (groups : Groups) × (run_cmd texts routes_client
        (show (routes (learned (record { peer = none }))))
      ≡ ok (flat_map (family_table (learned_row texts) learned_columns) groups))
    × Perm answered (concat groups)
    × Every OneFamily groups
    × Apart OtherFamily groups
run_cmd-learned_example = run_cmd-learned texts routes_client (record { peer = none }) refl
