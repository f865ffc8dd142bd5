-- ===== src/Rib/Insertions/Peer/Announced.antt =====
-- src/rib/mod.rs: what an accepted update of a peer leaves in the table.
use bgpd_rs.Base.{
  ℕ, ◌≡◌, refl, sym, ◌∙◌, ap, subst, List, [], ◌++◌, some, >>=-eq-ok, ok, nat_Eq, nat_eq_iff, arith,
}
use bgpd_rs.Base.Map
use bgpd_rs.Base.Within.{
  Within, append-Within, Within-append, Every, Every-append, Every-split, Every-map, Every-map_to,
  map-Within,
}
use bgpd_rs.Bgp.{IpAddr, PathAttribute, NlriEncoding, Update, id_mp_unreach_nlri}
use bgpd_rs.Rib.{
  Rib, pairs, keyed, add_entries, stamped, announce, withdraw_some, mp_withdraws, update_from_peer,
}
use bgpd_rs.Rib.Attributes.{AttributeApi, cache_insert, from_attributes}
use bgpd_rs.Rib.Coherent.{cache_insert-ok}
use bgpd_rs.Rib.Entry.{peer, RibEntry}
use bgpd_rs.Rib.Families.{Family}
use bgpd_rs.Rib.Insertions.Api.{Unused}
use bgpd_rs.Rib.Insertions.Peer.{Block, flat-upsert-Block, Distinct, Within-Stamped}
use bgpd_rs.Rib.Insertions.Taken.{Sole}
use bgpd_rs.Rib.Parse.{parse_update}
use bgpd_rs.Rib.Routes.{kept, pairs-withdraw_some}
use bgpd_rs.Session.Error.{SessionError}

module _ (lib : AttributeApi) (ip : IpAddr) (family : Family) (clock : ℕ → ℕ) where
  -- The attributes in the cache, and the entries of the announced routes next to those kept.
  pub record Announced (r' : Rib) (old : List (ℕ × RibEntry)) (attributes : List PathAttribute)
      (nlri : List NlriEncoding) : Type 0 where
    pub key : ℕ
    pub group : Map.get key r'.cache ≡ some (from_attributes lib attributes)
    pub block : Block (keyed (key, stamped (peer ip) family clock 0 nlri)) old (pairs r')

  add_entries-Announced :
      (r : Rib) (attributes : List PathAttribute) (nlri : List NlriEncoding) {key : ℕ} {r' : Rib}
      → add_entries lib {E = SessionError × Rib} r attributes
          (stamped (peer ip) family clock 0 nlri)
        ≡ ok (key, r')
      → Announced r' (pairs r) attributes nlri
  unfolding add_entries pairs
  add_entries-Announced r attributes nlri {key} {r'} h =
      let es = stamped (peer ip) family clock 0 nlri in
      let ((k, cache), hc, made) = >>=-eq-ok (cache_insert lib r.cache attributes) _ h in
      let (hashes, eq) = cache_insert-ok lib r.cache attributes hc in
      let r₀ : Rib = record {
        entries = Map.upsert k [] (λ old. old ++ es) r.entries;
        cache = cache;
      } in
      let same : ◌≡◌ {A = ℕ × Rib} (k, r₀) (key, r') = ground arith in
      let ends : r₀ ≡ r' = ap (λ (q : ℕ × Rib). q.1) same in
      record {
        key = k;
        group =
            ap (λ (q : Rib). Map.get k q.cache) (sym ends)
            ∙ rw eq (
                Map.get-insert k k (from_attributes lib attributes) r.cache
                ∙ rw ((nat_eq_iff k k).1 refl) refl);
        block =
            subst (λ (q : Rib). Block (keyed (k, es)) (pairs r) (pairs q)) ends
              (flat-upsert-Block k es r.entries);
      }

  pub update_from_peer-Announced :
      (r : Rib) (u : Update) {r' : Rib} {mp nlri : List NlriEncoding}
      {attributes : List PathAttribute}
      → mp_withdraws (lib.find u id_mp_unreach_nlri) ≡ ok mp
      → parse_update lib u ≡ ok (attributes, family, nlri)
      → update_from_peer lib r ip clock u ≡ ok r'
      → Announced r' (kept ip (mp ++ u.withdrawn_routes) (pairs r)) attributes nlri
  unfolding update_from_peer announce
  update_from_peer-Announced r u {r'} {mp = mp} {nlri = nlri} {attributes = attributes} m p h =
      let s = withdraw_some lib r ip (mp ++ u.withdrawn_routes) in
      let h' : announce lib s ip clock (ok (attributes, family, nlri)) ≡ ok r' = rw (m, p) at h in
      let ((key, r''), hk, hr) = >>=-eq-ok (add_entries lib s attributes _) _ h' in
      let made : r'' ≡ r' = ground arith in
      subst (λ q. Announced q (kept ip (mp ++ u.withdrawn_routes) (pairs r)) attributes nlri) made
        (subst (λ l. Announced r'' l attributes nlri) (pairs-withdraw_some lib r ip _)
          (add_entries-Announced s attributes nlri hk))

  -- The entry of an announced route, and its place in the table.
  pub record Entered (r' : Rib) (key : ℕ) (n : NlriEncoding) : Type 0 where
    pub timestamp : ℕ
    pub here :
        Within
          (key, record { source = peer ip; family = family; timestamp = timestamp; nlri = n })
          (pairs r')
    pub reading : (i : ℕ) × (timestamp ≡ clock i)
    pub sole :
        Every
          (Sole timestamp
            (key, record { source = peer ip; family = family; timestamp = timestamp; nlri = n }))
          (pairs r')

  -- If the readings of the clock are all different and no entry of the table has one of them, the
  -- entry of an announced route is the only one with its time stamp.
  pub Announced-Entered :
      (r' : Rib) (old : List (ℕ × RibEntry)) (attributes : List PathAttribute)
      (nlri : List NlriEncoding) (n : NlriEncoding)
      → Distinct clock
      → ((i : ℕ) → Every (Unused (clock i)) old)
      → Within n nlri
      → (w : Announced r' old attributes nlri) → Entered r' w.key n
  unfolding keyed
  Announced-Entered r' old attributes nlri n distinct unused within w =
      let s = Within-Stamped (peer ip) family clock distinct within in
      let e : RibEntry = record {
        source = peer ip;
        family = family;
        timestamp = clock s.index;
        nlri = n;
      } in
      let b = w.block in
      let (first, last) =
        Every-split (Unused (clock s.index)) b.before b.after
          (subst (Every (Unused (clock s.index))) b.was (unused s.index)) in
      let absent : (p : ℕ × RibEntry)
          → Unused (clock s.index) p
          → Sole (clock s.index) (w.key, e) p =
        λ p u same. cc in
      let block : Every (Sole (clock s.index) (w.key, e))
          (keyed (w.key, stamped (peer ip) family clock 0 nlri)) =
        Every-map_to _ (Sole (clock s.index) (w.key, e)) (λ x. (w.key, x))
          (λ x single same. ap (λ y. (w.key, y)) (single same)) _ s.single in
      record {
        timestamp = clock s.index;
        here =
            subst (Within (w.key, e)) (sym b.is) (
              append-Within b.before (Within-append b.after (map-Within (λ x. (w.key, x)) s.here)));
        reading = (s.index, refl);
        sole = subst (Every (Sole (clock s.index) (w.key, e))) (sym b.is) (
            Every-append _ b.before _ (Every-map _ _ absent b.before first)
              (Every-append _ _ b.after block (Every-map _ _ absent b.after last)));
      }
