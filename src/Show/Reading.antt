-- ===== src/Show/Reading.antt =====
-- src/rib/families.rs and src/config/file.rs: what is read back of what is written.
use bgpd_rs.Base.{
  ◌≡◌, ◌↔◌, refl, subst, ◌⊎◌, sym, inl, inr, ◌∙◌, ap, if◌then◌else◌, List, [], ◌∷◌, Option, none,
  some, ok, err, >>=-eq-ok, ◌==◌, arith, List-discrete, ℕ_discrete,
}
use bgpd_rs.Base.Text.{Text, text, text_Eq, trim, split_whitespace}
use bgpd_rs.Bgp.{Afi, ipv4, ipv6, l2vpn, other_afi, other_safi, Safi, unicast, safi_flowspec}
use bgpd_rs.Config.{AdvertiseSource}
use bgpd_rs.Rib.Families.{Family}
use bgpd_rs.Show.{
  deserialize_family, family_named, afi_named, safi_named, deserialize_advertise_source,
  show_advertise_source, FormatError, bad_afi_name, bad_safi_name,
}
use bgpd_rs.Utils.Api.{TextApi}

-- A source is read back from its text, where letters become small as they should.
pub deserialize-show_advertise_source :
    (api : TextApi)
    → api.lower (text "API") ≡ text "api"
    → api.lower (text "Config") ≡ text "config"
    → api.lower (text "Peer") ≡ text "peer"
    → (s : AdvertiseSource) → deserialize_advertise_source api (show_advertise_source s) ≡ ok s
unfolding deserialize_advertise_source show_advertise_source List-discrete ℕ_discrete
deserialize-show_advertise_source api a c p AdvertiseSource.api = rw a refl
deserialize-show_advertise_source api a c p AdvertiseSource.config = rw c refl
deserialize-show_advertise_source api a c p AdvertiseSource.peer = rw p refl

-- The names of the families that a configuration can have.
abbrev pub afi_name : Afi → Option Text
afi_name ipv4 = some (text "ipv4")
afi_name ipv6 = some (text "ipv6")
afi_name l2vpn = some (text "l2vpn")
afi_name _ = none

abbrev pub safi_name : Safi → Option Text
safi_name unicast = some (text "unicast")
safi_name safi_flowspec = some (text "flow")
safi_name _ = none

some-inj : {t u : Text} → Path (Option Text) (some t) (some u) → t ≡ u
some-inj h = cc

two_names :
    {K : Type 0} (t a b : Text) (x y : K) (e : FormatError) {r : K}
    → (if t == a then ok x else if t == b then ok y else err e) ≡ ok r
    → ((t ≡ a) × (r ≡ x)) ⊎ ((t ≡ b) × (r ≡ y))
two_names t a b x y e h = ground (arith, text_Eq.eq_iff t a, text_Eq.eq_iff t b)

three_names :
    {K : Type 0} (t a b c : Text) (x y z : K) (e : FormatError) {r : K}
    → (if t == a then ok x else if t == b then ok y else if t == c then ok z else err e) ≡ ok r
    → ((t ≡ a) × (r ≡ x)) ⊎ (((t ≡ b) × (r ≡ y)) ⊎ ((t ≡ c) × (r ≡ z)))
three_names t a b c x y z e h =
    ground (arith, text_Eq.eq_iff t a, text_Eq.eq_iff t b, text_Eq.eq_iff t c)

afi_name-afi_named : (t : Text) (a : Afi) → afi_named t ≡ ok a → afi_name a ≡ some t
unfolding afi_named
afi_name-afi_named t a h =
    elim (three_names t (text "ipv4") (text "ipv6") (text "l2vpn") ipv4 ipv6 l2vpn (bad_afi_name t)
      h) [
        | inl (e, r) ↦ ap afi_name r ∙ ap some (sym e)
        | inr (inl (e, r)) ↦ ap afi_name r ∙ ap some (sym e)
        | inr (inr (e, r)) ↦ ap afi_name r ∙ ap some (sym e)
      ]

afi_named-afi_name : (t : Text) (a : Afi) → afi_name a ≡ some t → afi_named t ≡ ok a
unfolding afi_named List-discrete ℕ_discrete
afi_named-afi_name t ipv4 h = subst (λ u. afi_named u ≡ ok ipv4) (some-inj h) refl
afi_named-afi_name t ipv6 h = subst (λ u. afi_named u ≡ ok ipv6) (some-inj h) refl
afi_named-afi_name t l2vpn h = subst (λ u. afi_named u ≡ ok l2vpn) (some-inj h) refl
afi_named-afi_name t (other_afi _) h = cc

safi_name-safi_named : (t : Text) (a : Safi) → safi_named t ≡ ok a → safi_name a ≡ some t
unfolding safi_named
safi_name-safi_named t a h =
    elim (two_names t (text "unicast") (text "flow") unicast safi_flowspec (bad_safi_name t) h) [
      | inl (e, r) ↦ ap safi_name r ∙ ap some (sym e)
      | inr (e, r) ↦ ap safi_name r ∙ ap some (sym e)
    ]

safi_named-safi_name : (t : Text) (a : Safi) → safi_name a ≡ some t → safi_named t ≡ ok a
unfolding safi_named List-discrete ℕ_discrete
safi_named-safi_name t unicast h = subst (λ u. safi_named u ≡ ok unicast) (some-inj h) refl
safi_named-safi_name t safi_flowspec h =
    subst (λ u. safi_named u ≡ ok safi_flowspec) (some-inj h) refl
safi_named-safi_name t (other_safi _) h = cc

-- The two words of a text, and the names that they are.
abbrev pub Names : List Text → Family → Type 0
Names (a ∷ b ∷ []) f = (afi_name f.afi ≡ some a) × (safi_name f.safi ≡ some b)
Names _ f = ⊥

family_named_lem :
    (s : Text) (ws : List Text) (f : Family) → (family_named s ws ≡ ok f) ↔ Names ws f
unfolding family_named
family_named_lem s (a ∷ b ∷ []) f = (
  λ h.
      let (x, hx, rest) = >>=-eq-ok (afi_named a) _ h in
      let (y, hy, last) = >>=-eq-ok (safi_named b) _ rest in
      let made : record { afi = x; safi = y } ≡ f = ground arith in
      (
        afi_name-afi_named a f.afi (hx ∙ ap (λ (g : Family). ok g.afi) made),
        safi_name-safi_named b f.safi (hy ∙ ap (λ (g : Family). ok g.safi) made),
      ),
  λ (h, k). rw (afi_named-afi_name a f.afi h, safi_named-safi_name b f.safi k) refl,
)
family_named_lem s [] f = (λ h. cc, λ k. absurd k)
family_named_lem s (a ∷ []) f = (λ h. cc, λ k. absurd k)
family_named_lem s (a ∷ b ∷ c ∷ ws) f = (λ h. cc, λ k. absurd k)

-- A text is read as a family exactly if it has two words, and they are the names of the family.
pub deserialize_family_lem :
    (s : Text) (f : Family) → (deserialize_family s ≡ ok f) ↔ Names (split_whitespace (trim s)) f
unfolding deserialize_family
deserialize_family_lem s f = family_named_lem s (split_whitespace (trim s)) f
