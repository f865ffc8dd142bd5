-- ===== src/Rib/Attributes/Errors.antt =====
-- src/rib/attributes.rs: a group is read in the same way whatever errors are passed on.
use bgpd_rs.Base.{ℕ, ◌≡◌, List, Option, none, some, Outcome, ok, >>=-eq-ok, arith}
use bgpd_rs.Bgp.{
  IpAddr, Origin, AsPath, PathAttribute, afi_Eq, safi_Eq, identifier_Eq, id_origin, id_as_path,
  id_next_hop, id_multi_exit_disc, id_local_pref, id_community, id_extended_communities,
  id_mp_reach_nlri,
}
use bgpd_rs.Base.Map
use bgpd_rs.Rib.Community.{Community}
use bgpd_rs.Rib.Attributes.{
  Group, PathAttributes, bytes_to_ipv6, from_group, read_origin, read_next_hop, read_mp_next_hop,
  read_as_path, read_local_pref, read_multi_exit_disc, read_community, read_extended,
}

module _ {ℓ κ} {E : Type ℓ} {F : Type κ} where
  read_origin_any :
      (o : Option PathAttribute) {a : Origin}
      → read_origin {E = E} o ≡ ok a
      → read_origin {E = F} o ≡ ok a
  unfolding read_origin
  read_origin_any o h = ground arith

  read_next_hop_any :
      (o : Option PathAttribute) {a : Option IpAddr}
      → read_next_hop {E = E} o ≡ ok a
      → read_next_hop {E = F} o ≡ ok a
  unfolding read_next_hop
  read_next_hop_any o h = ground arith

  read_as_path_any :
      (o : Option PathAttribute) {a : AsPath}
      → read_as_path {E = E} o ≡ ok a
      → read_as_path {E = F} o ≡ ok a
  unfolding read_as_path
  read_as_path_any o h = ground arith

  read_local_pref_any :
      (o : Option PathAttribute) {a : Option ℕ}
      → read_local_pref {E = E} o ≡ ok a
      → read_local_pref {E = F} o ≡ ok a
  unfolding read_local_pref
  read_local_pref_any o h = ground arith

  read_multi_exit_disc_any :
      (o : Option PathAttribute) {a : Option ℕ}
      → read_multi_exit_disc {E = E} o ≡ ok a
      → read_multi_exit_disc {E = F} o ≡ ok a
  unfolding read_multi_exit_disc
  read_multi_exit_disc_any o h = ground arith

  read_community_any :
      (o : Option PathAttribute) {a : List Community}
      → read_community {E = E} o ≡ ok a
      → read_community {E = F} o ≡ ok a
  unfolding read_community
  read_community_any o h = ground arith

  read_extended_any :
      (o : Option PathAttribute) {a : List Community}
      → read_extended {E = E} o ≡ ok a
      → read_extended {E = F} o ≡ ok a
  unfolding read_extended
  read_extended_any o h = ground arith

  read_mp_next_hop_any :
      (o p : Option PathAttribute) {a : Option IpAddr}
      → read_mp_next_hop {E = E} o p ≡ ok a
      → read_mp_next_hop {E = F} o p ≡ ok a
  unfolding read_mp_next_hop bytes_to_ipv6
  read_mp_next_hop_any none p h = read_next_hop_any p h
  read_mp_next_hop_any (some o) p h = ground arith

  ok_any :
      {a b : PathAttributes}
      → Path (Outcome E PathAttributes) (ok a) (ok b)
      → Path (Outcome F PathAttributes) (ok a) (ok b)
  ok_any h = ground arith

  pub from_group_any :
      (g : Group) {a : PathAttributes} → from_group {E = E} g ≡ ok a → from_group {E = F} g ≡ ok a
  unfolding from_group
  from_group_any g h =
      let (o, ho, h₁) = >>=-eq-ok (read_origin _) _ h in
      let (n, hn, h₂) = >>=-eq-ok (read_mp_next_hop _ _) _ h₁ in
      let (p, hp, h₃) = >>=-eq-ok (read_as_path _) _ h₂ in
      let (l, hl, h₄) = >>=-eq-ok (read_local_pref _) _ h₃ in
      let (m, hm, h₅) = >>=-eq-ok (read_multi_exit_disc _) _ h₄ in
      let (c, hc, h₆) = >>=-eq-ok (read_community _) _ h₅ in
      let (x, hx, last) = >>=-eq-ok (read_extended _) _ h₆ in
      rw
        (
          read_origin_any (Map.get id_origin g) ho,
          read_mp_next_hop_any (Map.get id_mp_reach_nlri g) (Map.get id_next_hop g) hn,
          read_as_path_any (Map.get id_as_path g) hp,
          read_local_pref_any (Map.get id_local_pref g) hl,
          read_multi_exit_disc_any (Map.get id_multi_exit_disc g) hm,
          read_community_any (Map.get id_community g) hc,
          read_extended_any (Map.get id_extended_communities g) hx,
        )
        (ok_any last)
