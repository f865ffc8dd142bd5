-- ===== src/Rib/Routes.antt =====
-- src/rib/mod.rs: what the three queries return, and what an update changes.
use bgpd_rs.Base.{
  ℕ, ◌≡◌, refl, sym, ◌∙◌, Bool, true, false, not, ◌&&◌, List, [], ◌∷◌, ◌++◌, map, retain,
  retain_none, retain_all, retain-retain, flat_map, contains, Perm, subst, ok, err, collect,
  >>=-eq-ok, ◌==◌, nat_Eq, arith,
}
use bgpd_rs.Base.Collect.{collect-retain, collect-append}
use bgpd_rs.Base.Map
use bgpd_rs.Base.Within.{
  Every, Every-any, Every-retained, Every-retain, Every-within, Within, collect-Every,
}
use bgpd_rs.Base.Map.{Map}
use bgpd_rs.Bgp.{IpAddr, PathAttribute, NlriEncoding, nlri_Eq, Update, id_mp_unreach_nlri}
use bgpd_rs.Session.Error.{SessionError}
use bgpd_rs.Rib.Attributes.{
  AttributeApi, Cache, PathAttributes, hash, from_attributes, cache_insert,
}
use bgpd_rs.Rib.Coherent.{cache_insert-ok}
use bgpd_rs.Rib.Entry.{EntrySource, peer, source_Eq, RibEntry, ExportEntry, export}
use bgpd_rs.Rib.Families.{Family}
use bgpd_rs.Rib.Parse.{parse_update}
use bgpd_rs.Rib.View.{pairs-remove_from_peer, pairs-withdraw_peer_nlri, flat-upsert}
use bgpd_rs.Rib.{
  Rib, keyed, pairs, attributes_of, export_group, export_pair, get_routes, get_routes_from_peer,
  get_routes_for_peer, remove_from_peer, withdraw_some, announce, add_entries, stamped,
  mp_withdraws, update_from_peer,
}

not-and_self : (b : Bool) → (not b && b) ≡ false
not-and_self b = ground arith

module _ {ℓ} {E : Type ℓ} where
  collect-group :
      (cache : Cache) (k : ℕ) (es : List RibEntry) {a : PathAttributes}
      → attributes_of {E = E} cache k ≡ ok a
      → collect (export_pair {E = E} cache) (keyed (k, es)) ≡ ok (map (λ e. export e a) es)
  unfolding collect export_pair keyed
  collect-group cache k [] h = refl
  collect-group cache k (e ∷ es) h = ground (arith, collect-group cache k es h)

  collect-groups :
      (cache : Cache) (m : Map ℕ (List RibEntry)) {gs : List (List ExportEntry)}
      → collect (export_group {E = E} cache) m ≡ ok gs
      → collect (export_pair {E = E} cache) (flat_map keyed m) ≡ ok (flat_map (λ g. g) gs)
  unfolding collect export_group flat_map
  collect-groups cache [] h = ground arith
  collect-groups cache ((k, es) ∷ m) h =
      let (g, hg, rest) = >>=-eq-ok (export_group cache (k, es)) _ h in
      let (a, ha, made) = >>=-eq-ok (attributes_of cache k) _ hg in
      let (gs', hgs, last) = >>=-eq-ok (collect (export_group cache) m) _ rest in
      collect-append _ (keyed (k, es)) (flat_map keyed m) (collect-group cache k es ha)
        (collect-groups cache m hgs)
      ∙ ground arith

  source-export :
      (cache : Cache) (q : EntrySource → Bool) (p : ℕ × RibEntry) (x : ExportEntry)
      → export_pair {E = E} cache p ≡ ok x
      → q p.1.source ≡ q x.source
  unfolding export_pair
  source-export cache q (k, e) x h = ground arith

  -- Where the table can be listed, the routes from a peer are the listed ones whose source is the
  -- peer, and the routes for a peer are the other ones, both in the order of the list.
  pub get_routes-split :
      (r : Rib) (ip : IpAddr) {all : List ExportEntry}
      → get_routes {E = E} r ≡ ok all
      → (get_routes_from_peer {E = E} r ip ≡ ok (retain (λ x. x.source == peer ip) all))
        × (get_routes_for_peer {E = E} r ip ≡ ok (retain (λ x. not (x.source == peer ip)) all))
  unfolding get_routes get_routes_from_peer get_routes_for_peer
  get_routes-split r ip {all} h =
      let (gs, hg, made) = >>=-eq-ok (collect (export_group r.cache) r.entries) _ h in
      let whole : collect (export_pair r.cache) (pairs r) ≡ ok all =
        collect-groups r.cache r.entries hg ∙ made in
      (
        collect-retain _ _ _ (pairs r) (source-export r.cache (λ s. s == peer ip)) whole,
        collect-retain _ _ _ (pairs r) (source-export r.cache (λ s. not (s == peer ip))) whole,
      )

  -- No route for a peer was learned from it.
  pub get_routes_for_peer-Every :
      (r : Rib) (ip : IpAddr) {es : List ExportEntry}
      → get_routes_for_peer {E = E} r ip ≡ ok es
      → Every (λ x. not (x.source == peer ip) ≡ true) es
  unfolding get_routes_for_peer
  get_routes_for_peer-Every r ip h =
      collect-Every (export_pair r.cache) (λ p. Unit {0} × (not (p.1.source == peer ip) ≡ true))
        (λ x. not (x.source == peer ip) ≡ true) _
        (λ p x made (_, far). sym (source-export r.cache (λ s. not (s == peer ip)) p x made) ∙ far)
        h (Every-retained (λ p. Unit {0}) _ (pairs r) (Every-any (pairs r)))

  -- The routes for a peer are entries that the table exports.
  pub get_routes_for_peer-exported {κ} :
      (T : ExportEntry → Type κ) (r : Rib) (ip : IpAddr) {es : List ExportEntry}
      → ((p : ℕ × RibEntry)
          → Within p (pairs r)
          → (x : ExportEntry) → export_pair {E = E} r.cache p ≡ ok x
          → T x)
      → get_routes_for_peer {E = E} r ip ≡ ok es
      → Every T es
  unfolding get_routes_for_peer
  get_routes_for_peer-exported T r ip known h =
      collect-Every (export_pair r.cache) (λ p. Within p (pairs r)) T _
        (λ p x made here. known p here x made) h
        (Every-retain _ _ (pairs r) (Every-within _ (pairs r) (λ p here. here)))

  -- A peer that was removed has no routes left.
  pub get_routes_from_peer-remove_from_peer :
      (r : Rib) (ip : IpAddr) → get_routes_from_peer {E = E} (remove_from_peer r ip) ip ≡ ok []
  unfolding get_routes_from_peer collect
  get_routes_from_peer-remove_from_peer r ip = rw (
    pairs-remove_from_peer r ip,
    retain-retain,
    retain_none (λ (p : ℕ × RibEntry). not (p.1.source == peer ip) && p.1.source == peer ip)
        (pairs r) (λ x. not-and_self (x.1.source == peer ip)),
  )

-- What an update takes away: the peer's entries for the routes that it withdraws.
abbrev pub kept : IpAddr → List NlriEncoding → List (ℕ × RibEntry) → List (ℕ × RibEntry)
kept ip ns = retain λ p. not (p.1.source == peer ip && contains p.1.nlri ns)

module _ (lib : AttributeApi) where
  pub pairs-withdraw_some :
      (r : Rib) (ip : IpAddr) (ns : List NlriEncoding)
      → pairs (withdraw_some lib r ip ns) ≡ kept ip ns (pairs r)
  unfolding withdraw_some contains
  pairs-withdraw_some r ip [] = sym (retain_all _ (pairs r) (λ x. ground arith))
  pairs-withdraw_some r ip (n ∷ ns) = pairs-withdraw_peer_nlri r ip (n ∷ ns)

  -- An insertion adds its entries under the hash of their attributes.
  pub add_entries-pairs {ℓ} :
      {E : Type ℓ} (r : Rib) (attributes : List PathAttribute) (es : List RibEntry) {key : ℕ}
      {r' : Rib}
      → add_entries lib {E = E} r attributes es ≡ ok (key, r')
      → (hash lib {E = SessionError} (from_attributes lib attributes) ≡ ok key)
        × Perm (pairs r') (pairs r ++ keyed (key, es))
  unfolding add_entries pairs
  add_entries-pairs r attributes es {key} {r'} h =
      let ((k, cache), hk, hr) = >>=-eq-ok (cache_insert lib r.cache attributes) _ h in
      let (hashes, _) = cache_insert-ok lib r.cache attributes hk in
      let made : ◌≡◌ {A = ℕ × Rib}
          (k, record { entries = Map.upsert k [] (λ old. old ++ es) r.entries; cache = cache })
          (key, r') =
        ground arith in
      (
        ground arith,
        subst (λ (x : ℕ × Rib). Perm (pairs x.1) (pairs r ++ keyed (x.0, es))) made
            (flat-upsert k es r.entries),
      )

  pub update_from_peer-pairs :
      (r : Rib) (ip : IpAddr) (clock : ℕ → ℕ) (u : Update) {r' : Rib} {mp nlri : List NlriEncoding}
      {attributes : List PathAttribute} {family : Family}
      → mp_withdraws (lib.find u id_mp_unreach_nlri) ≡ ok mp
      → parse_update lib u ≡ ok (attributes, family, nlri)
      → update_from_peer lib r ip clock u ≡ ok r'
      → (key : ℕ) × (hash lib {E = SessionError} (from_attributes lib attributes) ≡ ok key)
        × Perm (pairs r') (
            kept ip (mp ++ u.withdrawn_routes) (pairs r)
            ++ keyed (key, stamped (peer ip) family clock 0 nlri))
  unfolding update_from_peer announce
  update_from_peer-pairs r ip clock u {r'} {mp = mp} {nlri = nlri} {attributes = attributes}
        {family = family} m p h =
      let s = withdraw_some lib r ip (mp ++ u.withdrawn_routes) in
      let h' : announce lib s ip clock (ok (attributes, family, nlri)) ≡ ok r' = rw (m, p) at h in
      let ((key, r''), hk, hr) = >>=-eq-ok (add_entries lib s attributes _) _ h' in
      let made : r'' ≡ r' = ground arith in
      let (hashes, perm) = add_entries-pairs s attributes _ hk in
      (key, hashes, rw (← made, ← pairs-withdraw_some r ip (mp ++ u.withdrawn_routes)) perm)

  -- An update that cannot be parsed still takes away the peer's entries for the routes that it
  -- withdraws, and adds none.
  pub update_from_peer-err :
      (r : Rib) (ip : IpAddr) (clock : ℕ → ℕ) (u : Update) {mp : List NlriEncoding}
      {e : SessionError}
      → mp_withdraws (lib.find u id_mp_unreach_nlri) ≡ ok mp
      → parse_update lib u ≡ err e
      → (update_from_peer lib r ip clock u
          ≡ err (e, withdraw_some lib r ip (mp ++ u.withdrawn_routes)))
        × (pairs (withdraw_some lib r ip (mp ++ u.withdrawn_routes))
            ≡ kept ip (mp ++ u.withdrawn_routes) (pairs r))
  unfolding update_from_peer announce
  update_from_peer-err r ip clock u {mp = mp} m p = (rw (m, p), pairs-withdraw_some r ip _)
