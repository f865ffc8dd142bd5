-- ===== src/Rib/Coherent.antt =====
-- src/rib/mod.rs: the groups in use and the cache of groups keep in step.
use bgpd_rs.Base.{
  ℕ, ◌≡◌, refl, subst, >>=-eq-ok, ◌∙◌, false, not, if◌then◌else◌, List, [], ◌∷◌, ◌++◌, none, some,
  retain, contains, is_empty, ok, nat_Eq, nat_eq_iff, arith,
}
use bgpd_rs.Base.Map
use bgpd_rs.Base.Map.{Map}
use bgpd_rs.Base.Unique.{
  IsUnique, upsert-IsUnique, retain-IsUnique, get-retain, contains_key-map, map-IsUnique,
}
use bgpd_rs.Bgp.{IpAddr, PathAttribute, NlriEncoding}
use bgpd_rs.Session.Error.{SessionError}
use bgpd_rs.Rib.Attributes.{AttributeApi, Group, Cache, hash, from_attributes, cache_insert}
use bgpd_rs.Rib.Entry.{RibEntry}
use bgpd_rs.Rib.{
  Rib, new, retain_entries, remove_all, empty_groups, cleanup, withdraw_each, remove_from_peer,
  withdraw_peer_nlri, add_entries,
}

get-remove_all :
    (k : ℕ) (ks : List ℕ) (cache : Cache)
    → Map.get k (remove_all ks cache) ≡ (if contains k ks then none else Map.get k cache)
unfolding remove_all contains
get-remove_all k [] cache = refl
get-remove_all k (j ∷ ks) cache =
    get-remove_all k ks (Map.remove j cache) ∙ ground (arith, Map.get-remove j k cache)

contains-empty_groups :
    (k : ℕ) (m : Map ℕ (List RibEntry))
    → IsUnique m
    → contains k (empty_groups m) ≡ (elim (Map.get k m) [ none ↦ false | some es ↦ is_empty es ])
unfolding empty_groups retain contains Map.get
contains-empty_groups k [] u = refl
contains-empty_groups k ((j, es) ∷ m) u = ground (arith, contains-empty_groups k m u.1)

module _ (lib : AttributeApi) where
  -- Each key in use has a cached group and the other way round, and the group hashes to its key.
  pub record IsCoherent (r : Rib) : Type 0 where
    pub unique : IsUnique r.entries
    pub cached : (k : ℕ) → Map.contains_key k r.entries ≡ Map.contains_key k r.cache
    pub hashed :
        (k : ℕ) (g : Group) → Map.get k r.cache ≡ some g → hash lib {E = SessionError} g ≡ ok k

  pub new-IsCoherent : IsCoherent new
  unfolding new Map.get
  new-IsCoherent = record { unique = tt; cached = λ k. refl; hashed = λ k g e. cc }

  cleanup-IsCoherent : (r : Rib) → IsCoherent r → IsCoherent (cleanup r)
  unfolding cleanup
  cleanup-IsCoherent r c = record {
    unique = retain-IsUnique _ r.entries c.unique;
    cached = λ k. ground (
      arith,
      get-retain k (λ g. not (is_empty g.1)) r.entries c.unique,
      get-remove_all k (empty_groups r.entries) r.cache,
      contains-empty_groups k r.entries c.unique,
      c.cached k,
    );
    hashed =
        λ k g e. ground (arith, get-remove_all k (empty_groups r.entries) r.cache, c.hashed k g);
  }

  hash_any {ℓ κ} :
      {E : Type ℓ} {F : Type κ} (g : Group) {k : ℕ}
      → hash lib {E = E} g ≡ ok k
      → hash lib {E = F} g ≡ ok k
  unfolding hash
  hash_any g h = ground arith

  pub cache_insert-ok {ℓ} :
      {E : Type ℓ} (cache : Cache) (attrs : List PathAttribute) {key : ℕ} {cache' : Cache}
      → cache_insert lib {E = E} cache attrs ≡ ok (key, cache')
      → (hash lib {E = SessionError} (from_attributes lib attrs) ≡ ok key)
        × (cache' ≡ Map.insert key (from_attributes lib attrs) cache)
  unfolding cache_insert
  cache_insert-ok cache attrs h =
      let (k, hk, hr) = >>=-eq-ok (hash lib (from_attributes lib attrs)) _ h in
      let any = hash_any {F = SessionError} (from_attributes lib attrs) hk in ground arith

  pub add_entries-IsCoherent {ℓ} :
      {E : Type ℓ} (r : Rib) (attrs : List PathAttribute) (es : List RibEntry) {key : ℕ} {r' : Rib}
      → IsCoherent r
      → add_entries lib {E = E} r attrs es ≡ ok (key, r')
      → IsCoherent r'
  unfolding add_entries
  add_entries-IsCoherent r attrs es {key} {r'} c h =
      let ((k, cache), hk, hr) = >>=-eq-ok (cache_insert lib r.cache attrs) _ h in
      let (hashes, eq) = cache_insert-ok r.cache attrs hk in
      let made : record { entries = Map.upsert k [] (λ old. old ++ es) r.entries; cache = cache }
          ≡ r' =
        ground arith in
      subst IsCoherent made (record {
        unique = upsert-IsUnique k [] _ r.entries c.unique;
        cached = λ j. rw eq (
            ground (
              arith,
              Map.contains_key-upsert k j [] (λ old. old ++ es) r.entries,
              Map.get-insert k j (from_attributes lib attrs) r.cache,
              c.cached j,
            ));
        hashed = λ j g e. ground (
          arith,
          eq,
          hashes,
          Map.get-insert k j (from_attributes lib attrs) r.cache,
          c.hashed j g,
          nat_eq_iff k j,
        );
      })

  pub remove_from_peer-IsCoherent :
      (r : Rib) (ip : IpAddr) → IsCoherent r → IsCoherent (remove_from_peer r ip)
  unfolding remove_from_peer retain_entries
  remove_from_peer-IsCoherent r ip c = cleanup-IsCoherent _ (record {
    unique = map-IsUnique _ r.entries c.unique;
    cached = λ k. contains_key-map k _ r.entries ∙ c.cached k;
    hashed = c.hashed;
  })

  withdraw_each-IsCoherent :
      (ip : IpAddr) (ns : List NlriEncoding) (r : Rib)
      → IsCoherent r
      → IsCoherent (record r { entries = withdraw_each ip ns r.entries })
  unfolding withdraw_each retain_entries
  withdraw_each-IsCoherent ip [] r c = c
  withdraw_each-IsCoherent ip (n ∷ ns) r c = withdraw_each-IsCoherent ip ns _ (record {
    unique = map-IsUnique _ r.entries c.unique;
    cached = λ k. contains_key-map k _ r.entries ∙ c.cached k;
    hashed = c.hashed;
  })

  pub withdraw_peer_nlri-IsCoherent :
      (r : Rib) (ip : IpAddr) (ns : List NlriEncoding)
      → IsCoherent r
      → IsCoherent (withdraw_peer_nlri r ip ns)
  unfolding withdraw_peer_nlri
  withdraw_peer_nlri-IsCoherent r ip ns c =
      cleanup-IsCoherent _ (withdraw_each-IsCoherent ip ns r c)
