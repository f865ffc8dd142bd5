-- ===== src/Rib/Insertions/Api.antt =====
-- src/rib/mod.rs: a route from the API in the table, and in what a session takes of the table.
use mathlib.Core.List.{append_assoc, map-append}
use bgpd_rs.Base.{
  ℕ, ◌≡◌, refl, sym, ◌∙◌, ap, subst, true, false, not, List, [], ◌∷◌, ◌++◌, some, flat_map,
  Bool-cases, inl, inr, Outcome, ok, expect, >>=-eq-ok, ◌==◌, nat_Eq, nat_eq_iff, arith,
}
use bgpd_rs.Base.Map
use bgpd_rs.Base.Map.{Map}
use bgpd_rs.Base.Within.{Within, Every}
use bgpd_rs.Bgp.{IpAddr, PathAttribute, NlriEncoding}
use bgpd_rs.Rib.{
  Rib, pairs, keyed, add_entries, attributes_of, get_routes_for_peer, insert_from_api,
}
use bgpd_rs.Rib.Attributes.{
  AttributeApi, Cache, PathAttributes, cache_insert, hash, from_attributes, from_group,
}
use bgpd_rs.Rib.Attributes.Errors.{from_group_any}
use bgpd_rs.Rib.Coherent.{cache_insert-ok}
use bgpd_rs.Rib.Entry.{
  EntrySource, EntrySource-discrete, peer, api, source_Eq, RibEntry, ExportEntry, export,
}
use bgpd_rs.Rib.Families.{Family}
use bgpd_rs.Rib.Insertions.Taken.{Sole, taken-for_peer}
use bgpd_rs.Rib.SessionRoutes.Pending.{Only}

-- A list with one element more, somewhere.
pub record Added {ℓ} {A : Type ℓ} (x : A) (old new : List A) : Type ℓ where
  pub before : List A
  pub after : List A
  pub was : old ≡ before ++ after
  pub is : new ≡ before ++ x ∷ after

flat-upsert-Added :
    (k : ℕ) (e : RibEntry) (m : Map ℕ (List RibEntry))
    → Added (k, e) (flat_map keyed m) (flat_map keyed (Map.upsert k [] (λ old. old ++ e ∷ []) m))
unfolding flat_map Map.upsert keyed
flat-upsert-Added k e [] = record { before = []; after = []; was = refl; is = refl }
flat-upsert-Added k e ((j, old) ∷ m) = elim (Bool-cases (j == k)) [
  | inl same ↦ record {
    before = keyed (j, old);
    after = flat_map keyed m;
    was = refl;
    is = rw same (
        ap (λ t. t ++ flat_map keyed m) (map-append (λ f. (j, f)) old (e ∷ []))
        ∙ append_assoc (keyed (j, old)) ((j, e) ∷ []) (flat_map keyed m)
        ∙ ap (λ i. keyed (j, old) ++ (i, e) ∷ flat_map keyed m) ((nat_eq_iff j k).0 same));
  }
  | inr other ↦
      let a = flat-upsert-Added k e m in
      record {
        before = keyed (j, old) ++ a.before;
        after = a.after;
        was =
            ap (λ t. keyed (j, old) ++ t) a.was
            ∙ sym (append_assoc (keyed (j, old)) a.before a.after);
        is = rw other (
            ap (λ t. keyed (j, old) ++ t) a.is
            ∙ sym (append_assoc (keyed (j, old)) a.before ((k, e) ∷ a.after)));
      }
]

attributes_of_any {ℓ κ} :
    {E : Type ℓ} {F : Type κ} (cache : Cache) (key : ℕ) {a : PathAttributes}
    → attributes_of {E = E} cache key ≡ ok a
    → attributes_of {E = F} cache key ≡ ok a
unfolding attributes_of
attributes_of_any cache key h =
    let (g, hg, rest) = >>=-eq-ok (expect (Map.get key cache)) _ h in
    let found : Map.get key cache ≡ some g = ground arith in rw found (from_group_any g rest)

-- An insertion that succeeds does so whatever the type of the errors.
pub insert_from_api-any {ℓ κ} :
    {E : Type ℓ} {F : Type κ} (lib : AttributeApi) (r : Rib) (f : Family) (as' : List PathAttribute)
    (n : NlriEncoding) (now : ℕ) {x : ExportEntry × Rib}
    → insert_from_api lib {E = E} r f as' n now ≡ ok x
    → insert_from_api lib {E = F} r f as' n now ≡ ok x
unfolding insert_from_api add_entries cache_insert hash
insert_from_api-any {E = E} {F = F} lib r f as' n now {x} h =
    let e : RibEntry = record { source = api; family = f; timestamp = now; nlri = n } in
    let ((k, r₁), hk, rest) = >>=-eq-ok (add_entries lib {E = E} r as' (e ∷ [])) _ h in
    let (a, ha, last) = >>=-eq-ok (attributes_of {E = E} r₁.cache k) _ rest in
    let added : add_entries lib {E = F} r as' (e ∷ []) ≡ ok (k, r₁) = ground arith in
    let made : ◌≡◌ {A = ExportEntry × Rib} (export e a, r₁) x = ground arith in
    rw (added, attributes_of_any {F = F} r₁.cache k ha) (ap ok made)

module _ {ℓ} (E : Type ℓ) (lib : AttributeApi) where
  -- What an insertion by the API leaves: the entry, its attributes, and its place in the table.
  pub record Inserted (r r' : Rib) (f : Family) (as' : List PathAttribute) (n : NlriEncoding)
      (now : ℕ) (x : ExportEntry) : Type ℓ where
    pub key : ℕ
    pub attributes : PathAttributes
    pub read : from_group {E = E} (from_attributes lib as') ≡ ok attributes
    pub cached : attributes_of {E = E} r'.cache key ≡ ok attributes
    pub entry :
        export (record { source = api; family = f; timestamp = now; nlri = n }) attributes ≡ x
    pub place :
        Added
          (key, record { source = api; family = f; timestamp = now; nlri = n })
          (pairs r)
          (pairs r')

  pub insert_from_api-Inserted :
      (r : Rib) (f : Family) (as' : List PathAttribute) (n : NlriEncoding) (now : ℕ)
      {x : ExportEntry} {r' : Rib}
      → insert_from_api lib {E = E} r f as' n now ≡ ok (x, r')
      → Inserted r r' f as' n now x
  unfolding insert_from_api add_entries pairs attributes_of
  insert_from_api-Inserted r f as' n now {x} {r'} h =
      let e : RibEntry = record { source = api; family = f; timestamp = now; nlri = n } in
      let ((k, r₁), hk, rest) = >>=-eq-ok (add_entries lib r as' (e ∷ [])) _ h in
      let (a, ha, last) = >>=-eq-ok (attributes_of r₁.cache k) _ rest in
      let ((k₀, cache), hc, made) = >>=-eq-ok (cache_insert lib r.cache as') _ hk in
      let (hashes, eq) = cache_insert-ok lib r.cache as' hc in
      let r₀ : Rib = record {
        entries = Map.upsert k₀ [] (λ old. old ++ e ∷ []) r.entries;
        cache = cache;
      } in
      let same : ◌≡◌ {A = ℕ × Rib} (k₀, r₀) (k, r₁) = ground arith in
      let ends : r₁ ≡ r' = ground arith in
      let group : Map.get k₀ cache ≡ some (from_attributes lib as') = rw eq (
        Map.get-insert k₀ k₀ (from_attributes lib as') r.cache
        ∙ rw ((nat_eq_iff k₀ k₀).1 refl) refl) in
      let cached₀ : attributes_of {E = E} cache k₀ ≡ ok a =
        ap (λ (q : ℕ × Rib). attributes_of {E = E} q.1.cache q.0) same ∙ ha in
      record {
        key = k₀;
        attributes = a;
        read = rw group at cached₀;
        cached =
            ap (λ (q : Rib). attributes_of {E = E} q.cache k₀)
              (sym (ap (λ (q : ℕ × Rib). q.1) same ∙ ends))
            ∙ cached₀;
        entry = ground arith;
        place =
            subst (λ (q : Rib). Added (k₀, e) (pairs r) (pairs q))
              (ap (λ (q : ℕ × Rib). q.1) same ∙ ends) (flat-upsert-Added k₀ e r.entries);
      }

-- No entry has the time stamp.
abbrev pub Unused : ℕ → ℕ × RibEntry → Type 0
Unused now p = (p.1.timestamp == now) ≡ false

Sole-Added :
    (now : ℕ) (q : ℕ × RibEntry) (before after : List (ℕ × RibEntry))
    → Every (Unused now) (before ++ after)
    → Every (Sole now q) (before ++ q ∷ after)
Sole-Added now q [] [] h = (λ e. refl, tt)
Sole-Added now q [] (p ∷ after) (h, hs) = (λ e. refl, ((λ e. cc), (Sole-Added now q [] after hs).1))
Sole-Added now q (p ∷ before) after (h, hs) = ((λ e. cc), Sole-Added now q before after hs)

elsewhere :
    (ip : IpAddr) (f : Family) (n : NlriEncoding) (now : ℕ)
    → not (EntrySource.api == peer ip) ≡ true
unfolding EntrySource-discrete
elsewhere ip f n now = refl

module _ {ℓ κ} {E : Type ℓ} {F : Type κ} (lib : AttributeApi) where
  -- What a session takes of the table after the insertion has the entry, and no other with its time stamp.
  pub Inserted-for_peer :
      (r r' : Rib) (f : Family) (as' : List PathAttribute) (n : NlriEncoding) (now : ℕ)
      (x : ExportEntry) (ip : IpAddr) {es : List ExportEntry}
      → Inserted E lib r r' f as' n now x
      → Every (Unused now) (pairs r)
      → get_routes_for_peer {E = F} r' ip ≡ ok es
      → Within x es × Every (Only now x) es
  unfolding get_routes_for_peer
  Inserted-for_peer r r' f as' n now x ip {es} w fresh h =
      let e : RibEntry = record { source = api; family = f; timestamp = now; nlri = n } in
      let here : Within (w.key, e) (pairs r') = record {
        before = w.place.before;
        after = w.place.after;
        whole = w.place.is;
      } in
      let sole : Every (Sole now (w.key, e)) (pairs r') =
        subst (Every (Sole now (w.key, e))) (sym w.place.is) (
          Sole-Added now (w.key, e) w.place.before w.place.after
            (subst (Every (Unused now)) w.place.was fresh)) in
      let (a, ha, within, only) =
        taken-for_peer {F = F} r' w.key e ip here (elsewhere ip f n now) sole h in
      let read : ◌≡◌ {A = Outcome F PathAttributes} (ok a) (ok w.attributes) =
        sym ha ∙ attributes_of_any {F = F} r'.cache w.key w.cached in
      let same : export e a ≡ x = ground arith in
      (subst (λ z. Within z es) same within, subst (λ z. Every (Only now z) es) same only)
