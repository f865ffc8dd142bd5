-- ===== src/Rib/Insertions/Taken.antt =====
-- src/rib/mod.rs: an entry of the table in what a session takes of the table.
use bgpd_rs.Base.{
  ℕ, ◌≡◌, sym, ◌∙◌, ap, subst, true, not, List, Outcome, ok, >>=-eq-ok, some, ◌==◌, nat_Eq, arith,
}
use bgpd_rs.Base.Within.{Within, Every, collect-Within, collect-Every, Every-retain, retain-Within}
use bgpd_rs.Base.Map
use bgpd_rs.Bgp.{IpAddr, PathAttribute}
use bgpd_rs.Rib.{Rib, pairs, attributes_of, export_pair, get_routes_for_peer}
use bgpd_rs.Rib.Attributes.{AttributeApi, Cache, PathAttributes, from_attributes, from_group}
use bgpd_rs.Rib.Entry.{peer, source_Eq, RibEntry, ExportEntry, export}
use bgpd_rs.Rib.SessionRoutes.Pending.{Only}

-- An entry with the time stamp is the one.
abbrev pub Sole : ℕ → ℕ × RibEntry → ℕ × RibEntry → Type 0
Sole now q p = (p.1.timestamp == now) ≡ true → p ≡ q

module _ {κ} {F : Type κ} where
  export-attributes :
      (cache : Cache) (key : ℕ) (e : RibEntry) {y : ExportEntry}
      → export_pair {E = F} cache (key, e) ≡ ok y
      → (a : PathAttributes) × (attributes_of {E = F} cache key ≡ ok a) × (y ≡ export e a)
  unfolding export_pair
  export-attributes cache key e {y} h =
      let (a, ha, made) = >>=-eq-ok (attributes_of {E = F} cache key) _ h in
      let same : export e a ≡ y = ground arith in (a, ha, sym same)

  export-inj : {x y : ExportEntry} → Path (Outcome F ExportEntry) (ok x) (ok y) → x ≡ y
  export-inj h = cc

  export-timestamp :
      (cache : Cache) (p : ℕ × RibEntry) {y : ExportEntry}
      → export_pair {E = F} cache p ≡ ok y
      → y.timestamp ≡ p.1.timestamp
  unfolding export_pair
  export-timestamp cache (key, e) h = ground arith

  -- If the table gives a session its routes, an entry from elsewhere whose time stamp no other entry
  -- has is one of them, with the attributes that the cache has for it.
  pub taken-for_peer :
      (r : Rib) (key : ℕ) (e : RibEntry) (ip : IpAddr) {es : List ExportEntry}
      → Within (key, e) (pairs r)
      → not (e.source == peer ip) ≡ true
      → Every (Sole e.timestamp (key, e)) (pairs r)
      → get_routes_for_peer {E = F} r ip ≡ ok es
      → (a : PathAttributes) × (attributes_of {E = F} r.cache key ≡ ok a)
        × Within (export e a) es
        × Every (Only e.timestamp (export e a)) es
  unfolding get_routes_for_peer
  taken-for_peer r key e ip {es} w far sole h =
      let g : ℕ × RibEntry → Outcome F ExportEntry = export_pair r.cache in
      let (y, hy, within) = collect-Within g (retain-Within _ far w) h in
      let (a, ha, same) = export-attributes r.cache key e hy in
      (
        a,
        ha,
        subst (λ z. Within z es) same within,
        collect-Every g (Sole e.timestamp (key, e)) (Only e.timestamp (export e a)) _
            (λ p z hz only at.
              let there : p ≡ (key, e) =
                only (ap (λ t. t == e.timestamp) (sym (export-timestamp r.cache p hz)) ∙ at) in
              export-inj (sym hz ∙ ap g there ∙ hy) ∙ same)
            h (Every-retain (Sole e.timestamp (key, e)) _ (pairs r) sole),
      )

  -- The attributes that the cache has for a key are those of its group.
  pub group-read :
      (lib : AttributeApi) (r : Rib) (key : ℕ) (attributes : List PathAttribute)
      {a : PathAttributes}
      → Map.get key r.cache ≡ some (from_attributes lib attributes)
      → attributes_of {E = F} r.cache key ≡ ok a
      → from_group {E = F} (from_attributes lib attributes) ≡ ok a
  unfolding attributes_of
  group-read lib r key attributes group h = rw group at h
