-- ===== src/Rib/Insertions.antt =====
-- src/rib/mod.rs: what the two insertions of the daemon's own routes add.
pub mod Api
pub mod Taken
pub mod Peer
use bgpd_rs.Base.{
  ℕ, ◌≡◌, refl, ◌∙◌, ap, subst, List, [], ◌∷◌, ◌++◌, Perm, Outcome, ok, err, panic, ◌>>=◌,
  >>=-eq-ok, arith, nat_Eq,
}
use bgpd_rs.Bgp.{PathAttribute, NlriEncoding}
use bgpd_rs.Rib.{Rib, pairs, keyed, add_entries, attributes_of, insert_from_config, insert_from_api}
use bgpd_rs.Rib.Attributes.{
  AttributeApi, PathAttributes, hash, cache_insert, from_attributes, from_group,
}
use bgpd_rs.Rib.Entry.{RibEntry, config, api, ExportEntry, export}
use bgpd_rs.Rib.Families.{Family}
use bgpd_rs.Rib.Routes.{add_entries-pairs}
use bgpd_rs.Session.Error.{SessionError}

module _ {ℓ} {E : Type ℓ} (lib : AttributeApi) where
  pub insert_from_config-any :
      {F : Type 0} (r : Rib) (f : Family) (as' : List PathAttribute) (n : NlriEncoding) (now : ℕ)
      {r' : Rib}
      → insert_from_config lib {E = E} r f as' n now ≡ ok r'
      → insert_from_config lib {E = F} r f as' n now ≡ ok r'
  unfolding insert_from_config add_entries cache_insert hash
  insert_from_config-any r f as' n now h = ground arith

  -- The one entry that an insertion adds.
  pub insert_from_config-pairs :
      (r : Rib) (f : Family) (as' : List PathAttribute) (n : NlriEncoding) (now : ℕ) {r' : Rib}
      → insert_from_config lib {E = E} r f as' n now ≡ ok r'
      → (key : ℕ) × ((hash lib {E = SessionError} (from_attributes lib as') ≡ ok key)
          × Perm (pairs r') (
              pairs r
              ++ (key, record { source = config; family = f; timestamp = now; nlri = n }) ∷ []))
  unfolding insert_from_config keyed
  insert_from_config-pairs r f as' n now {r'} h =
      let ((k, r''), hk, hr) = >>=-eq-ok (add_entries lib r as' _) _ h in
      let same : r'' ≡ r' = ground arith in
      let (hashes, perm) = add_entries-pairs lib r as' _ hk in (k, (hashes, rw (← same) perm))
