-- ===== src/Rib/Attributes.antt =====
-- src/rib/attributes.rs: groups of path attributes, their hash, the cache of groups, and the
-- attributes that are read out of a group.
pub mod Reading
pub mod Errors
use Prim.Native.Nat.{zero, suc}
use bgpd_rs.Base.{
  ℕ, ◌+◌, ◌*◌, leb, Bool, true, false, if◌then◌else◌, List, [], ◌∷◌, ◌++◌, map, Option, none, some,
  Outcome, ok, err, panic, expect, ◌>>=◌, ◌==◌, ◌&&◌, nat_Eq,
}
use bgpd_rs.Base.Map
use bgpd_rs.Base.Map.{Map}
use bgpd_rs.Bgp.{
  IpAddr, v6, Afi, ipv6, Safi, unicast, Origin, incomplete, AsPath, PathAttribute, Identifier,
  Update, id_origin, id_as_path, id_next_hop, id_multi_exit_disc, id_local_pref, id_community,
  id_extended_communities, id_mp_reach_nlri, afi_Eq, safi_Eq, identifier_Eq,
}
use bgpd_rs.Bgp
use bgpd_rs.Rib.Community.{Community, standard, extended}

-- `bgp_rs` and the hasher of `std`: the identifier of an attribute and its number, the attribute of
-- an update under an identifier, the encoding of an attribute (`none` if it fails), and what the
-- hasher makes of a sequence of writes.
pub record AttributeApi : Type 0 where
  pub id : PathAttribute → Identifier
  pub code : Identifier → ℕ
  pub find : Update → Identifier → Option PathAttribute
  pub encode : PathAttribute → Option (List ℕ)
  pub finish : List (List ℕ) → ℕ

abbrev pub Group : Type 0
Group = Map Identifier PathAttribute

abbrev pub Cache : Type 0
Cache = Map ℕ Group

pub record PathAttributes : Type 0 where
  pub next_hop : Option IpAddr
  pub origin : Origin
  pub as_path : AsPath
  pub local_pref : Option ℕ
  pub multi_exit_disc : Option ℕ
  pub communities : List Community

-- The first sixteen octets as one number; a shorter slice panics. (src/utils/display.rs)
number : ℕ → ℕ → List ℕ → Option ℕ
number zero acc bytes = some acc
number (suc n) acc [] = none
number (suc n) acc (b ∷ bytes) = number n (acc * 256 + b) bytes

unfoldable pub bytes_to_ipv6 {ℓ} : {E : Type ℓ} → List ℕ → Outcome E IpAddr
unfolding number
bytes_to_ipv6 bytes = do n ← expect (number 16 0 bytes); ok (v6 n)

module _ (lib : AttributeApi) where
  collect_group : Group → List PathAttribute → Group
  collect_group g [] = g
  collect_group g (a ∷ as') = collect_group (Map.insert (lib.id a) a g) as'

  unfoldable pub from_attributes : List PathAttribute → Group
  unfolding collect_group
  from_attributes = collect_group []

  -- `sorted_by` on the numbers of the identifiers.
  place : PathAttribute → List PathAttribute → List PathAttribute
  place a [] = a ∷ []
  place a (b ∷ bs) =
      if leb (lib.code (lib.id a)) (lib.code (lib.id b)) then a ∷ b ∷ bs else b ∷ place a bs

  sorted : List PathAttribute → List PathAttribute
  unfolding place
  sorted [] = []
  sorted (a ∷ as') = place a (sorted as')

  -- The buffer is never cleared, so each write repeats the ones before it.
  writes : List ℕ → List PathAttribute → Option (List (List ℕ))
  writes bytes [] = some []
  writes bytes (a ∷ as') = elim (lib.encode a) [
    | none ↦ none
    | some code ↦ elim (writes (bytes ++ code) as') [
      | none ↦ none
      | some rest ↦ some ((bytes ++ code) ∷ rest)
    ]
  ]

  unfoldable pub hash {ℓ} : {E : Type ℓ} → Group → Outcome E ℕ
  unfolding sorted writes
  hash g = do ws ← expect (writes [] (sorted (map (λ p. p.1) g))); ok (lib.finish ws)

  -- `PathAttributeCache::insert`
  unfoldable pub cache_insert {ℓ} :
      {E : Type ℓ} → Cache → List PathAttribute → Outcome E (ℕ × Cache)
  cache_insert cache attrs = do
    let group = from_attributes attrs
    key ← hash group
    ok (key, Map.insert key group cache)

-- The arms of the matches of `from_group`; `panic` is `unreachable!()`.
module _ {ℓ} {E : Type ℓ} where
  read_origin : Option PathAttribute → Outcome E Origin
  read_origin none = ok incomplete
  read_origin (some (PathAttribute.origin o)) = ok o
  read_origin (some _) = panic

  read_next_hop : Option PathAttribute → Outcome E (Option IpAddr)
  read_next_hop none = ok none
  read_next_hop (some (PathAttribute.next_hop a)) = ok (some a)
  read_next_hop (some _) = panic

  read_mp_next_hop : Option PathAttribute → Option PathAttribute → Outcome E (Option IpAddr)
  unfolding read_next_hop
  read_mp_next_hop none fallback = read_next_hop fallback
  read_mp_next_hop (some (PathAttribute.mp_reach_nlri nlri)) fallback =
      if nlri.afi == ipv6 && nlri.safi == unicast
      then (do a ← bytes_to_ipv6 nlri.next_hop; ok (some a))
      else ok none
  read_mp_next_hop (some _) fallback = ok none

  read_as_path : Option PathAttribute → Outcome E AsPath
  read_as_path none = ok (record { segments = [] })
  read_as_path (some (PathAttribute.as_path p)) = ok p
  read_as_path (some _) = panic

  read_local_pref : Option PathAttribute → Outcome E (Option ℕ)
  read_local_pref none = ok none
  read_local_pref (some (PathAttribute.local_pref n)) = ok (some n)
  read_local_pref (some _) = panic

  read_multi_exit_disc : Option PathAttribute → Outcome E (Option ℕ)
  read_multi_exit_disc none = ok none
  read_multi_exit_disc (some (PathAttribute.multi_exit_disc n)) = ok (some n)
  read_multi_exit_disc (some _) = panic

  read_community : Option PathAttribute → Outcome E (List Community)
  read_community none = ok []
  read_community (some (PathAttribute.community cs)) = ok (map standard cs)
  read_community (some _) = panic

  read_extended : Option PathAttribute → Outcome E (List Community)
  read_extended none = ok []
  read_extended (some (PathAttribute.extended_communities cs)) = ok (map extended cs)
  read_extended (some _) = panic

  unfoldable pub from_group : Group → Outcome E PathAttributes
  unfolding read_origin read_next_hop read_mp_next_hop read_as_path read_local_pref
      read_multi_exit_disc read_community read_extended
  from_group g = do
    origin ← read_origin (Map.get id_origin g)
    next_hop ← read_mp_next_hop (Map.get id_mp_reach_nlri g) (Map.get id_next_hop g)
    as_path ← read_as_path (Map.get id_as_path g)
    local_pref ← read_local_pref (Map.get id_local_pref g)
    multi_exit_disc ← read_multi_exit_disc (Map.get id_multi_exit_disc g)
    communities ← read_community (Map.get id_community g)
    ext_communities ← read_extended (Map.get id_extended_communities g)
    ok (record {
      next_hop = next_hop;
      origin = origin;
      as_path = as_path;
      local_pref = local_pref;
      multi_exit_disc = multi_exit_disc;
      communities = communities ++ ext_communities;
    })
