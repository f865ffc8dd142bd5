-- ===== src/Cli/Display.antt =====
-- src/cli/display.rs: the rows of the tables. `row!` makes a cell of each text.
use bgpd_rs.Base.{◌&&◌, if◌then◌else◌, List, [], ◌∷◌, Option, none, some, ◌==◌, nat_Eq}
use bgpd_rs.Base.Text.{Text, text, decimal}
use bgpd_rs.Api.Rpc.{PeerSummary, LearnedRoute}
use bgpd_rs.Rib.Community.Notation.{join}
use bgpd_rs.Utils.Api.{TextApi}

abbrev pub Row : Type 0
Row = List Text

-- `display_cell`, with the text of the value.
display_cell {ℓ} : {A : Type ℓ} → (A → Text) → Option A → Text
display_cell show none = []
display_cell show (some v) = show v

-- `replace("; ", "\n")`
break_lines : Text → Text
break_lines [] = []
break_lines (c ∷ []) = c ∷ []
break_lines (c ∷ d ∷ rest) =
    let later = break_lines rest in
    let next = break_lines (d ∷ rest) in if c == b';' && d == b' ' then 10 ∷ later else c ∷ next

unfoldable pub peer_columns : Row
peer_columns =
    text "Neighbor"
    ∷ text "Router ID"
    ∷ text "AS"
    ∷ text "MsgRcvd"
    ∷ text "MsgSent"
    ∷ text "Uptime"
    ∷ text "State"
    ∷ text "PfxRcd"
    ∷ []

route_columns : Text → Row
route_columns first =
    first
    ∷ text "Prefix"
    ∷ text "Next Hop"
    ∷ text "Age"
    ∷ text "Origin"
    ∷ text "Local Pref"
    ∷ text "Metric"
    ∷ text "AS Path"
    ∷ text "Communities"
    ∷ text "Age"
    ∷ []

unfoldable pub learned_columns : Row
unfolding route_columns
learned_columns = route_columns (text "Received From")

unfoldable pub advertised_columns : Row
unfolding route_columns
advertised_columns = route_columns (text "Advertised To")

module _ (api : TextApi) where
  unfoldable pub peer_row : PeerSummary → Row
  unfolding display_cell
  peer_row p =
      (if p.enabled then p.peer else b'*' ∷ p.peer)
      ∷ display_cell api.show_ip p.router_id
      ∷ decimal p.remote_asn
      ∷ display_cell decimal p.msg_received
      ∷ display_cell decimal p.msg_sent
      ∷ display_cell (λ t. t) p.uptime
      ∷ p.state
      ∷ display_cell decimal p.prefixes_received
      ∷ []

  -- The two rows of routes differ in the cell of the prefix.
  route_row : (Text → Text) → LearnedRoute → Row
  unfolding display_cell
  route_row prefix r =
      r.source
      ∷ prefix r.prefix
      ∷ display_cell api.show_ip r.next_hop
      ∷ r.age
      ∷ r.origin
      ∷ display_cell decimal r.local_pref
      ∷ display_cell decimal r.multi_exit_disc
      ∷ r.as_path
      ∷ join (b' ' ∷ []) r.communities
      ∷ r.age
      ∷ []

  unfoldable pub learned_row : LearnedRoute → Row
  unfolding route_row break_lines
  learned_row = route_row break_lines

  unfoldable pub advertised_row : LearnedRoute → Row
  unfolding route_row
  advertised_row = route_row (λ t. t)
