-- ===== src/Session/Updates/Infallible.antt =====
-- src/session/lib.rs: `create_update` has no error of its own, and can only panic.
use bgpd_rs.Base.{List, Option, none, some, Outcome, ok, err, panic, ◌>>=◌}
use bgpd_rs.Bgp.{IpAddr, v4, v6, Afi, ipv4, ipv6, NlriEncoding, ip, flowspec, PathAttribute, Prefix}
use bgpd_rs.Rib.Entry.{ExportedUpdate}
use bgpd_rs.Session.Peer.{Session}
use bgpd_rs.Session.Updates.{
  v6_octets, announce_prefix, announce_nlri, base_attributes, create_update,
}

abbrev pub NoErr {ℓ κ} : {E : Type ℓ} {A : Type κ} → Outcome E A → Type 0
NoErr (err e) = ⊥
NoErr _ = Unit

pub NoErr-bind {ℓ κ μ} :
    {E : Type ℓ} {A : Type κ} {B : Type μ} (m : Outcome E A) (f : A → Outcome E B)
    → NoErr m
    → ((a : A) → NoErr (f a))
    → NoErr (m >>= f)
NoErr-bind (ok a) f h k = k a
NoErr-bind (err e) f h k = h
NoErr-bind panic f h k = tt

module _ {ℓ} (E : Type ℓ) where
  v6_octets-NoErr : (o : Option IpAddr) → NoErr (v6_octets {E = E} o)
  unfolding v6_octets
  v6_octets-NoErr (some (v6 n)) = tt
  v6_octets-NoErr (some (v4 n)) = tt
  v6_octets-NoErr none = tt

  announce_prefix-NoErr :
      (as' : List PathAttribute) (u : ExportedUpdate) (f : Afi) (p : Prefix)
      → NoErr (announce_prefix {E = E} as' u f p)
  unfolding announce_prefix
  announce_prefix-NoErr as' u ipv4 p = tt
  announce_prefix-NoErr as' u ipv6 p =
      NoErr-bind (v6_octets u.attributes.next_hop) _ (v6_octets-NoErr u.attributes.next_hop)
        (λ x. tt)
  announce_prefix-NoErr as' u _ p = tt

  announce_nlri-NoErr :
      (as' : List PathAttribute) (u : ExportedUpdate) (n : NlriEncoding)
      → NoErr (announce_nlri {E = E} as' u n)
  unfolding announce_nlri
  announce_nlri-NoErr as' u (ip p) = announce_prefix-NoErr as' u p.protocol p
  announce_nlri-NoErr as' u (flowspec fs) = tt
  announce_nlri-NoErr as' u _ = tt

  pub create_update-NoErr : (s : Session) (u : ExportedUpdate) → NoErr (create_update {E = E} s u)
  unfolding create_update
  create_update-NoErr s u = announce_nlri-NoErr (base_attributes s.config u) u u.nlri
