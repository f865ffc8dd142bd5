-- ===== src/Utils/Flow.antt =====
-- src/utils/parse.rs: the action and the matches of a flow rule.
pub mod Actions
use bgpd_rs.Base.{
  ℕ, suc, ◌+◌, ◌*◌, ◌/◌, ◌%◌, ◌^◌, ltb, Bool, true, false, not, ◌&&◌, ◌||◌, if◌then◌else◌, List, [],
  ◌∷◌, ◌++◌, map, Option, none, some, contains, Outcome, ok, err, panic, or_err, map_err, ◌>>=◌,
  ◌==◌, nat_Eq,
}
use bgpd_rs.Base.Bytes.{octets, number}
use bgpd_rs.Base.Text.{Text, text, text_Eq, parse_uint, split_once, split_whitespace}
use bgpd_rs.Bgp.{
  PathAttribute, NumericOperator, FlowspecFilter, destination_prefix, source_prefix, ip_protocol,
  on_port, destination_port, source_port, icmp_type, icmp_code, packet_length,
}
use bgpd_rs.Rib.Community.{Community, standard, extended}
use bgpd_rs.Rib.Community.Notation.{try_from, CommunityError}
use bgpd_rs.Utils.Api.{TextApi, FilterLimits}
use bgpd_rs.Utils.Error.{
  ParseError, no_action, bad_action, unsupported_action, bad_redirect, bad_rate, bad_dscp,
  invalid_dscp, bad_match, unsupported_match, unreadable_prefix,
}
use bgpd_rs.Utils.Numbers.{u8_max, prefix_from_str, parse_num_operator}

-- A rate is the bits of an `f32`; an action is whether to sample, and whether to end.
pub data FlowAction : Type 0 where
  redirect : Community → FlowAction
  traffic_rate : ℕ → FlowAction
  traffic_action : Bool × Bool → FlowAction
  mark_dscp : ℕ → FlowAction

-- The octets of a community that marks an action.
redirect_octets : List ℕ → List ℕ
redirect_octets (a ∷ b ∷ c ∷ d ∷ []) = 0x80 ∷ 0x08 ∷ a ∷ b ∷ 0 ∷ 0 ∷ c ∷ d ∷ []
redirect_octets _ = []

module _ {ℓ} {E : Type ℓ} where
  action_octets : FlowAction → Outcome E (List ℕ)
  unfolding redirect_octets
  action_octets (traffic_rate bps) = ok (0x80 ∷ 0x06 ∷ 0 ∷ 0 ∷ octets 4 bps)
  action_octets (traffic_action (sample, terminal)) = ok (
      0x80
      ∷ 0x07
      ∷ 0
      ∷ 0
      ∷ 0
      ∷ 0
      ∷ 0
      ∷ ((if sample then 2 else 0) + (if terminal then 1 else 0))
      ∷ [])
  action_octets (redirect (standard val)) = ok (redirect_octets (octets 4 val))
  action_octets (redirect (extended _)) = panic
  action_octets (mark_dscp dscp) = ok (0x80 ∷ 0x09 ∷ 0 ∷ 0 ∷ 0 ∷ 0 ∷ 0 ∷ dscp ∷ [])

  -- `impl From<FlowAction> for PathAttribute`
  unfoldable pub action_attribute : FlowAction → Outcome E PathAttribute
  unfolding action_octets
  action_attribute action = do
    bytes ← action_octets action
    ok (PathAttribute.extended_communities (number bytes ∷ []))

module _ (api : TextApi) where
  -- The reasons of a community are dropped.
  parse_redirect : Text → Outcome ParseError FlowAction
  parse_redirect word = do c ← map_err (λ _. bad_redirect word) (try_from word); ok (redirect c)

  parse_mark : Text → Outcome ParseError FlowAction
  parse_mark word = do
    dscp ← or_err (parse_uint u8_max word) (bad_dscp word)
    if ltb 64 dscp then err (invalid_dscp dscp) else ok (mark_dscp dscp)

  parse_rate : Text → Outcome ParseError FlowAction
  parse_rate word = do bps ← or_err (api.parse_f32 word) (bad_rate word); ok (traffic_rate bps)

  -- The verb in lower case, and all the words.
  action_of : Text → Text → Text → List Text → Outcome ParseError FlowAction
  unfolding parse_redirect parse_mark parse_rate
  action_of verb first second words =
      if verb == text "redirect"
      then parse_redirect second
      else if verb == text "traffic-action"
      then ok (traffic_action (contains (text "sample") words, false))
      else if verb == text "traffic-rate"
      then parse_rate second
      else if verb == text "mark"
      then parse_mark second
      else err (unsupported_action first)

  action_words : Text → List Text → Outcome ParseError FlowAction
  unfolding action_of
  action_words action [] = err no_action
  action_words action (_ ∷ []) = err (bad_action action)
  action_words action (first ∷ second ∷ rest) =
      action_of (api.lower first) first second (first ∷ second ∷ rest)

  unfoldable pub parse_flowspec_action : Text → Outcome ParseError FlowAction
  unfolding action_words
  parse_flowspec_action action = action_words action (split_whitespace action)

-- `enumerate().map(|(i, w)| parse_num_operator(w, i)).collect()`
parse_operators : ℕ → ℕ → List Text → Outcome ParseError (List (NumericOperator × ℕ))
parse_operators max index [] = ok []
parse_operators max index (word ∷ words) = do
  first ← parse_num_operator max word index
  rest ← parse_operators max (suc index) words
  ok (first ∷ rest)

module _ (api : TextApi) (limits : FilterLimits) where
  parse_values :
      (List (NumericOperator × ℕ) → FlowspecFilter) → ℕ → Text → Outcome ParseError FlowspecFilter
  unfolding parse_operators
  parse_values make max word = do
    values ← parse_operators max 0 (split_whitespace word)
    ok (make values)

  match_of : Text → Text → Text → Outcome ParseError FlowspecFilter
  unfolding parse_values
  match_of kind first rest =
      if kind == text "destination"
      then (do
        p ← map_err (λ _. unreadable_prefix rest) (prefix_from_str api rest)
        ok (destination_prefix p))
      else if kind == text "source"
      then (do
        p ← map_err (λ _. unreadable_prefix rest) (prefix_from_str api rest)
        ok (source_prefix p))
      else if kind == text "protocol"
      then parse_values ip_protocol limits.protocol rest
      else if kind == text "port"
      then parse_values on_port limits.port rest
      else if kind == text "destination-port"
      then parse_values destination_port limits.destination_port rest
      else if kind == text "source-port"
      then parse_values source_port limits.source_port rest
      else if kind == text "icmp-type"
      then parse_values icmp_type limits.icmp_type rest
      else if kind == text "icmp-code"
      then parse_values icmp_code limits.icmp_code rest
      else if kind == text "packet-length"
      then parse_values packet_length limits.packet_length rest
      else err (unsupported_match first)

  match_parts : Text → Option (Text × Text) → Outcome ParseError FlowspecFilter
  unfolding match_of
  match_parts rule none = err (bad_match rule)
  match_parts rule (some (first, rest)) = match_of (api.lower first) first rest

  unfoldable pub parse_flowspec_match : Text → Outcome ParseError FlowspecFilter
  unfolding match_parts
  parse_flowspec_match rule = match_parts rule (split_once b' ' rule)
