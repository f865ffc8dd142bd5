-- ===== src/Rib.antt =====
-- src/rib/mod.rs: the routing table. Entries are kept under the hash of their group of attributes,
-- and the group is kept once, in the cache. A clock reading is an argument.
pub mod Families
pub mod Community
pub mod Attributes
pub mod Entry
pub mod Parse
pub mod SessionRoutes
pub mod Coherent
pub mod Histories
pub mod View
pub mod Routes
pub mod Insertions
use bgpd_rs.Base.{
  ℕ, suc, Bool, true, false, not, ◌&&◌, if◌then◌else◌, List, [], ◌∷◌, ◌++◌, map, Option, none, some,
  length, is_empty, retain, flat_map, Outcome, ok, err, panic, expect, collect, ◌>>=◌, ◌==◌, nat_Eq,
  ◌+◌,
}
use bgpd_rs.Base.Map
use bgpd_rs.Base.Map.{Map}
use bgpd_rs.Bgp.{
  IpAddr, PathAttribute, mp_unreach_nlri, NlriEncoding, nlri_Eq, Update, id_mp_unreach_nlri,
}
use bgpd_rs.Session.Error.{SessionError}
use Attributes.{AttributeApi, Cache, PathAttributes, cache_insert, from_group}
use Entry.{EntrySource, api, config, peer, source_Eq, RibEntry, ExportEntry, export}
use Families.{Family}
use Parse.{Parsed, parse_update}

pub record Rib : Type 0 where
  pub entries : Map ℕ (List RibEntry)
  pub cache : Cache

unfoldable pub new : Rib
new = record { entries = []; cache = [] }

unfoldable pub len : Rib → ℕ
len r = count r.entries
  where
    count : Map ℕ (List RibEntry) → ℕ
    count = elim [ [] ↦ 0 | e ∷ (es → n) ↦ length e.1 + n ]

-- A failed `update_from_peer` leaves the table as it is then.
abbrev pub Step : Type 0
Step = Outcome (SessionError × Rib) Rib

-- Every entry with the key of its group, in the order of iteration.
unfoldable pub keyed : ℕ × List RibEntry → List (ℕ × RibEntry)
keyed (k, es) = map (λ e. (k, e)) es

unfoldable pub pairs : Rib → List (ℕ × RibEntry)
unfolding keyed
pairs r = flat_map keyed r.entries

module _ {ℓ} {E : Type ℓ} where
  -- "Cached PAs exist"
  pub attributes_of : Cache → ℕ → Outcome E PathAttributes
  attributes_of cache key = do group ← expect (Map.get key cache); from_group group

  export_group : Cache → ℕ × List RibEntry → Outcome E (List ExportEntry)
  unfolding attributes_of
  export_group cache (key, es) = do
    attributes ← attributes_of cache key
    ok (map (λ e. export e attributes) es)

  pub export_pair : Cache → ℕ × RibEntry → Outcome E ExportEntry
  unfolding attributes_of
  export_pair cache (key, e) = do attributes ← attributes_of cache key; ok (export e attributes)

  unfoldable pub get_routes : Rib → Outcome E (List ExportEntry)
  unfolding export_group
  get_routes r = do groups ← collect (export_group r.cache) r.entries; ok (flat_map (λ g. g) groups)

  unfoldable pub get_routes_from_peer : Rib → IpAddr → Outcome E (List ExportEntry)
  unfolding export_pair pairs
  get_routes_from_peer r ip =
      collect (export_pair r.cache) (retain (λ p. p.1.source == peer ip) (pairs r))

  unfoldable pub get_routes_for_peer : Rib → IpAddr → Outcome E (List ExportEntry)
  unfolding export_pair pairs
  get_routes_for_peer r ip =
      collect (export_pair r.cache) (retain (λ p. not (p.1.source == peer ip)) (pairs r))

-- `values_mut().map(|entries| entries.retain(..))`
retain_entries : (RibEntry → Bool) → Map ℕ (List RibEntry) → Map ℕ (List RibEntry)
retain_entries keep = map λ g. (g.0, retain keep g.1)

remove_all : List ℕ → Cache → Cache
remove_all [] cache = cache
remove_all (k ∷ ks) cache = remove_all ks (Map.remove k cache)

empty_groups : Map ℕ (List RibEntry) → List ℕ
empty_groups m = map (λ g. g.0) (retain (λ g. is_empty g.1) m)

pub cleanup : Rib → Rib
unfolding remove_all empty_groups
cleanup r = record {
  entries = retain (λ g. not (is_empty g.1)) r.entries;
  cache = remove_all (empty_groups r.entries) r.cache;
}

unfoldable pub remove_from_peer : Rib → IpAddr → Rib
unfolding retain_entries cleanup
remove_from_peer r ip =
    cleanup (record r { entries = retain_entries (λ e. not (e.source == peer ip)) r.entries })

withdraw_each : IpAddr → List NlriEncoding → Map ℕ (List RibEntry) → Map ℕ (List RibEntry)
unfolding retain_entries
withdraw_each ip [] m = m
withdraw_each ip (n ∷ ns) m =
    withdraw_each ip ns (retain_entries (λ e. not (e.source == peer ip && e.nlri == n)) m)

unfoldable pub withdraw_peer_nlri : Rib → IpAddr → List NlriEncoding → Rib
unfolding withdraw_each cleanup
withdraw_peer_nlri r ip withdrawn =
    cleanup (record r { entries = withdraw_each ip withdrawn r.entries })

unfoldable pub mp_withdraws :
    Option PathAttribute → Outcome (SessionError × Rib) (List NlriEncoding)
mp_withdraws none = ok []
mp_withdraws (some (mp_unreach_nlri nlri)) = ok nlri.withdrawn_routes
mp_withdraws (some _) = panic

-- The entry of each route, with the readings of the clock from the `i`-th on.
pub stamped : EntrySource → Family → (ℕ → ℕ) → ℕ → List NlriEncoding → List RibEntry
stamped source family clock i [] = []
stamped source family clock i (n ∷ ns) =
    record { source = source; family = family; timestamp = clock i; nlri = n }
    ∷ stamped source family clock (suc i) ns

module _ (lib : AttributeApi) where
  -- The end of the three insertions: the group into the cache, the entries under its key.
  pub add_entries {ℓ} :
      {E : Type ℓ} → Rib → List PathAttribute → List RibEntry → Outcome E (ℕ × Rib)
  add_entries r attributes es = do
    (key, cache) ← cache_insert lib r.cache attributes
    ok (key, record { entries = Map.upsert key [] (λ old. old ++ es) r.entries; cache = cache })

  pub withdraw_some : Rib → IpAddr → List NlriEncoding → Rib
  withdraw_some r ip [] = r
  withdraw_some r ip (n ∷ ns) = withdraw_peer_nlri r ip (n ∷ ns)

  announce : Rib → IpAddr → (ℕ → ℕ) → Outcome SessionError Parsed → Step
  unfolding add_entries stamped
  announce r ip clock (err e) = err (e, r)
  announce r ip clock panic = panic
  announce r ip clock (ok (attributes, family, nlri)) = do
    (key, r') ← add_entries r attributes (stamped (peer ip) family clock 0 nlri)
    ok r'

  unfoldable pub update_from_peer : Rib → IpAddr → (ℕ → ℕ) → Update → Step
  unfolding mp_withdraws withdraw_some announce
  update_from_peer r ip clock update = do
    mp ← mp_withdraws (lib.find update id_mp_unreach_nlri)
    announce (withdraw_some r ip (mp ++ update.withdrawn_routes)) ip clock (parse_update lib update)

  unfoldable pub insert_from_api {ℓ} :
      {E : Type ℓ}
      → Rib
      → Family
      → List PathAttribute
      → NlriEncoding
      → ℕ
      → Outcome E (ExportEntry × Rib)
  unfolding add_entries attributes_of
  insert_from_api r family attributes nlri now = do
    let e : RibEntry = record { source = api; family = family; timestamp = now; nlri = nlri }
    (key, r') ← add_entries r attributes (e ∷ [])
    cached ← attributes_of r'.cache key
    ok (export e cached, r')

  unfoldable pub insert_from_config {ℓ} :
      {E : Type ℓ} → Rib → Family → List PathAttribute → NlriEncoding → ℕ → Outcome E Rib
  unfolding add_entries
  insert_from_config r family attributes nlri now = do
    let e : RibEntry = record { source = config; family = family; timestamp = now; nlri = nlri }
    (key, r') ← add_entries r attributes (e ∷ [])
    ok r'
