-- ===== src/Utils/Flow/Actions.antt =====
-- src/utils/parse.rs: what the marks of the actions are, and which actions are read.
use bgpd_rs.Base.{
  ℕ, ◌+◌, ◌*◌, ◌/◌, ◌%◌, ◌^◌, ◌<◌, ◌≡◌, refl, true, false, ◌||◌, if◌then◌else◌, [], ◌∷◌, ◌++◌, ok,
  arith,
}
use bgpd_rs.Base.Bytes.{octets, number}
use bgpd_rs.Base.Text.{Text, text, decimal, is_space}
use bgpd_rs.Base.Text.Decimal.{decimal-All, decimal-StartsDigit}
use bgpd_rs.Base.Text.Split.{
  solid, Word, Word-digit, StartsDigit-append, All-append, All-solid_digits, split_whitespace-two,
}
use bgpd_rs.Bgp.{PathAttribute}
use bgpd_rs.Rib.Community.{standard, extended}
use bgpd_rs.Rib.Community.Notation.{ext_community_to_display, show_action, colon}
use bgpd_rs.Rib.Community.Notation.Reading.{try_from_wraps}
use bgpd_rs.Utils.Api.{TextApi}
use bgpd_rs.Utils.Display.{u32_to_dotted}
use bgpd_rs.Utils.Flow.{
  FlowAction, redirect, traffic_rate, traffic_action, mark_dscp, action_attribute, action_octets,
  redirect_octets, parse_redirect, parse_flowspec_action,
}

redirect-Word : Word (text "redirect")
unfolding is_space
redirect-Word = (refl, (refl, (refl, (refl, (refl, (refl, (refl, (refl, tt))))))))

colon_solid : solid b':' ≡ true
unfolding is_space
colon_solid = refl

pair-Word : (a b : ℕ) → Word (decimal a ++ b':' ∷ decimal b)
pair-Word a b =
    Word-digit (decimal a ++ b':' ∷ decimal b)
      (StartsDigit-append (decimal a) (b':' ∷ decimal b) (decimal-StartsDigit a))
      (All-append solid (decimal a) (b':' ∷ decimal b)
        (All-solid_digits (decimal a) (decimal-All a))
        (colon_solid, All-solid_digits (decimal b) (decimal-All b)))

-- What an operator should read of an action: its name and its value.
unfoldable pub described : TextApi → FlowAction → Text
described api (redirect (standard val)) =
    colon api (text "redirect") (colon api (decimal (val / 65536)) (decimal (val % 65536)))
described api (redirect (extended _)) = []
described api (traffic_rate bps) =
    colon api (text "traffic-rate") (colon api (decimal 0) (api.show_f32 bps ++ text "bps"))
described api (traffic_action (sample, terminal)) =
    colon api (text "traffic-action")
      (colon api (decimal 0) (if sample || terminal then text "sample" else decimal 0))
described api (mark_dscp dscp) = colon api (text "traffic-marking") (decimal dscp)

-- The fields have the widths of their types, and the low half of a redirection is not 65535.
unfoldable pub Fits : FlowAction → Type 0
Fits (redirect (standard val)) = val < 2 ^ 32 × val % 65536 < 65535
Fits (redirect (extended _)) = ⊥
Fits (traffic_rate bps) = bps < 2 ^ 32
Fits (traffic_action _) = Unit {0}
Fits (mark_dscp dscp) = dscp < 256

-- An action becomes one extended community, and the text of this community is the action's.
pub action_attribute-display :
    {E : Type 0} (api : TextApi) (action : FlowAction)
    → Fits action
    → (n : ℕ) × (action_attribute {E = E} action ≡ ok (PathAttribute.extended_communities (n ∷ []))
        × ext_community_to_display api n ≡ described api action)
unfolding Fits described action_attribute action_octets redirect_octets octets number
    ext_community_to_display show_action u32_to_dotted
action_attribute-display api (redirect (standard val)) (small, low) = (_, (refl, ground arith))
action_attribute-display api (redirect (extended _)) h = absurd h
action_attribute-display api (traffic_rate bps) h = (_, (refl, ground arith))
action_attribute-display api (traffic_action (false, false)) h = (_, (refl, ground arith))
action_attribute-display api (traffic_action (true, false)) h = (_, (refl, ground arith))
action_attribute-display api (traffic_action (false, true)) h = (_, (refl, ground arith))
action_attribute-display api (traffic_action (true, true)) h = (_, (refl, ground arith))
action_attribute-display api (mark_dscp dscp) h = (_, (refl, ground arith))

module _ (api : TextApi) (lower : api.lower (text "redirect") ≡ text "redirect") where
  parse_redirection :
      (a b : ℕ)
      → a < 65536
      → b < 65536
      → parse_flowspec_action api (text "redirect" ++ b' ' ∷ (decimal a ++ b':' ∷ decimal b))
        ≡ ok (redirect (standard (a * 65536 + b)))
  unfolding parse_flowspec_action parse_redirect
  parse_redirection a b ha hb =
      rw
        (
          split_whitespace-two (text "redirect") (decimal a ++ b':' ∷ decimal b) redirect-Word
              (pair-Word a b),
          lower,
        )
        (ground (arith, try_from_wraps a b (omega arith) (omega arith)))
