-- ===== src/Session/Updates/Announced.antt =====
-- src/session/lib.rs: what a peer reads out of the UPDATE that a session sends it.
use bgpd_rs.Base.{
  ℕ, ◌≡◌, refl, ◌∙◌, Bool, true, false, not, if◌then◌else◌, nat_Eq, ◌&&◌, List, [], ◌∷◌, ◌++◌, map,
  Option, some, ok, ◌==◌, arith,
}
use bgpd_rs.Bgp.{
  IpAddr, Segment, as_sequence, as_set, AsPath, ipv4, unicast, Prefix, ip, Identifier-discrete,
  variant, Update, afi_Eq, safi_Eq,
}
use bgpd_rs.Config.{PeerConfig, is_ebgp, unwrap_or}
use bgpd_rs.Rib.Attributes.{AttributeApi, PathAttributes, from_attributes, from_group}
use bgpd_rs.Rib.Attributes.Reading.{NamesVariants, last_of, get-from_attributes}
use bgpd_rs.Rib.Community.{standard, extended, all_standard, all_extended}
use bgpd_rs.Rib.Entry.{ExportedUpdate}
use bgpd_rs.Session.Error.{SessionError}
use bgpd_rs.Session.Peer.{Session}
use bgpd_rs.Session.Updates.{
  base_attributes, own_path, prepend, sent_path, sent_next_hop, create_update,
}

-- The AS numbers of the first segment, with the numbers that are put in front.
abbrev pub first_segment : List ℕ → AsPath → Segment
first_segment own p = elim p.segments [
  | [] ↦ as_sequence own
  | as_sequence asns ∷ _ ↦ as_sequence (own ++ asns)
  | as_set asns ∷ _ ↦ as_set (own ++ asns)
]

-- To a peer in the same AS the path of the route, to another one a single segment: the local AS
-- number and the numbers of the first segment of the route.
abbrev pub expected_path : PeerConfig → AsPath → AsPath
expected_path config p =
    if config.remote_as == config.local_as
    then p
    else record { segments = first_segment (config.local_as ∷ []) p ∷ [] }

sent_path-expected_path :
    (config : PeerConfig) (p : AsPath) → sent_path config p ≡ expected_path config p
unfolding sent_path is_ebgp own_path prepend
sent_path-expected_path config p = path (config.remote_as == config.local_as) p.segments
  where
    path :
        (b : Bool) (segments : List Segment)
        → (if not b
            then own_path config.local_as (record { segments = segments })
            else record { segments = segments })
          ≡ (if b then record { segments = segments } else record {
            segments = first_segment (config.local_as ∷ []) (record { segments = segments }) ∷ [];
          })
    path true segments = refl
    path false [] = refl
    path false (as_sequence asns ∷ rest) = refl
    path false (as_set asns ∷ rest) = refl

-- What `from_group` makes of the attributes that go with an IPv4 prefix.
abbrev pub read_back : PeerConfig → ExportedUpdate → Option IpAddr → PathAttributes
read_back config u next_hop = record {
  next_hop = next_hop;
  origin = u.attributes.origin;
  as_path = expected_path config u.attributes.as_path;
  local_pref = some (unwrap_or u.attributes.local_pref 100);
  multi_exit_disc = u.attributes.multi_exit_disc;
  communities =
      map standard (all_standard u.attributes.communities)
      ++ map extended (all_extended u.attributes.communities);
}

module _ (lib : AttributeApi) (names : NamesVariants lib) where
  from_group-base_attributes {ℓ} :
      {E : Type ℓ} (config : PeerConfig) (u : ExportedUpdate)
      → from_group {E = E} (from_attributes lib (base_attributes config u))
        ≡ ok (read_back config u (sent_next_hop u))
  unfolding from_group base_attributes last_of variant Identifier-discrete
  from_group-base_attributes config u =
      simp (get-from_attributes lib names, sent_path-expected_path) (ground arith)

  -- An IPv4 unicast route goes out as one announced route, and reading the attributes of the message
  -- gives the next hop, the origin, the discriminator and the communities of the route, its local
  -- preference or 100, and its path to a peer in the same AS; to a peer in another AS the path is
  -- one segment: the local AS number in front of the first segment of the route.
  pub create_update-ipv4 :
      (s : Session) (u : ExportedUpdate) (p : Prefix)
      → u.nlri ≡ ip p
      → p.protocol ≡ ipv4
      → (u.family.afi == ipv4 && u.family.safi == unicast) ≡ true
      → (upd : Update) × (create_update {E = SessionError} s u ≡ ok upd)
        × (upd.announced_routes ≡ ip p ∷ [])
        × (upd.withdrawn_routes ≡ [])
        × (from_group {E = SessionError} (from_attributes lib upd.attributes)
            ≡ ok (read_back s.config u u.attributes.next_hop))
  unfolding create_update sent_next_hop
  create_update-ipv4 s u p route v4_prefix family = (
    record {
      withdrawn_routes = [];
      attributes = base_attributes s.config u;
      announced_routes = ip p ∷ [];
    },
    rw (route, v4_prefix),
    refl,
    refl,
    from_group-base_attributes s.config u ∙ rw family,
  )
