-- ===== src/Rib/Histories/Refinement.antt =====
-- src/rib/mod.rs: the table as a bag of entries. Each entry stands with the key of its attributes;
-- the groups of the map, the cache and the order are forgotten.

use mathlib.Core.Quot
use bgpd_rs.Base.{
  ℕ, ◌≡◌, refl, ◌∙◌, ap, sym, not, ◌&&◌, inl, inr, List, [], ◌∷◌, ◌++◌, contains, Outcome, ok, err,
  panic, >>=-eq-ok, ◌==◌, nat_Eq, arith, flat_map,
}
use bgpd_rs.Base.Bag.{Bag, keep, add}
use bgpd_rs.Bgp.{IpAddr, PathAttribute, NlriEncoding, nlri_Eq, Update, id_mp_unreach_nlri}
use bgpd_rs.Rib.Attributes.{AttributeApi, hash, from_attributes}
use bgpd_rs.Rib.Entry.{peer, api, config, source_Eq, RibEntry, ExportEntry}
use bgpd_rs.Rib.Families.{Family}
use bgpd_rs.Rib.Histories.{
  Leaves, Reach, start, updated, from_api, from_config, removed, add_entries-ne-err,
  mp_withdraws-ne-err,
}
use bgpd_rs.Rib.Parse.{Parsed, parse_update}
use bgpd_rs.Rib.Routes.{update_from_peer-pairs, update_from_peer-err, add_entries-pairs}
use bgpd_rs.Rib.View.{pairs-remove_from_peer}
use bgpd_rs.Rib.{
  Rib, Step, new, pairs, keyed, stamped, mp_withdraws, withdraw_some, announce, add_entries,
  attributes_of, update_from_peer, remove_from_peer, insert_from_api, insert_from_config,
}
use bgpd_rs.Session.Error.{SessionError}

abbrev pub Table : Type 0
Table = Bag (ℕ × RibEntry)

abbrev pub table : Rib → Table
table r = Quot.mk (pairs r)

-- What the table should be after each operation: entries go, and entries come under one key.
abbrev pub gone : IpAddr → Table → Table
gone ip = keep (λ p. not (p.1.source == peer ip))

abbrev pub withdrawn : IpAddr → List NlriEncoding → Table → Table
withdrawn ip ns = keep (λ p. not (p.1.source == peer ip && contains p.1.nlri ns))

left_by : {s : Step} {e : SessionError} {r r' : Rib} → s ≡ err (e, r) → Leaves s r' → r ≡ r'
left_by h (inl k) = cc
left_by h (inr (e, k)) = ground arith

panics : {s : Step} {r' : Rib} → s ≡ panic → Leaves s r' → ⊥
panics h (inl k) = cc
panics h (inr (e, k)) = cc

pub routes_read : Outcome (SessionError × Rib) (List NlriEncoding) → List NlriEncoding
routes_read (ok routes) = routes
routes_read (err e) = []
routes_read panic = []

-- Attributes that cannot be hashed leave no table.
put_under : List RibEntry → Outcome SessionError ℕ → Table → Table
put_under es (ok key) t = add (keyed (key, es)) t
put_under es (err e) t = t
put_under es panic t = t

module _ (lib : AttributeApi) where
  unfoldable pub put : List PathAttribute → List RibEntry → Table → Table
  unfolding put_under
  put attributes es = put_under es (hash lib {E = SessionError} (from_attributes lib attributes))

  abbrev pub announced : IpAddr → (ℕ → ℕ) → Outcome SessionError Parsed → Table → Table
  announced ip clock (ok (attributes, family, nlri)) t =
      put attributes (stamped (peer ip) family clock 0 nlri) t
  announced ip clock _ t = t

  abbrev pub mp_routes : Update → List NlriEncoding
  mp_routes u = routes_read (mp_withdraws (lib.find u id_mp_unreach_nlri))

  abbrev pub wanted : {r : Rib} → Reach lib r → Table
  wanted start = Quot.mk []
  wanted (updated ip clock u w _) =
      announced ip clock (parse_update lib u)
        (withdrawn ip (mp_routes u ++ u.withdrawn_routes) (wanted w))
  wanted (from_api f as' n now _ w _) =
      put as' (record { family = f; source = api; timestamp = now; nlri = n } ∷ []) (wanted w)
  wanted (from_config f as' n now w _) =
      put as' (record { family = f; source = config; timestamp = now; nlri = n } ∷ []) (wanted w)
  wanted (removed ip w) = gone ip (wanted w)

  add_entries-put :
      {E : Type 0} (r : Rib) (as' : List PathAttribute) (es : List RibEntry) {key : ℕ} {r' : Rib}
      → add_entries lib {E = E} r as' es ≡ ok (key, r')
      → table r' ≡ put as' es (table r)
  unfolding add put
  add_entries-put r as' es h =
      let (hashes, perm) = add_entries-pairs lib r as' es h in rw hashes (Quot.sound perm)

  insert_from_api-put :
      (r : Rib) (f : Family) (as' : List PathAttribute) (n : NlriEncoding) (now : ℕ)
      {e : ExportEntry} {r' : Rib}
      → insert_from_api lib {E = SessionError} r f as' n now ≡ ok (e, r')
      → table r'
        ≡ put as' (record { family = f; source = api; timestamp = now; nlri = n } ∷ []) (table r)
  unfolding insert_from_api
  insert_from_api-put r f as' n now {r' = r'} h =
      let ((k, r''), hk, rest) = >>=-eq-ok (add_entries lib r as' _) _ h in
      let (a, ha, last) = >>=-eq-ok (attributes_of r''.cache k) _ rest in
      let same : r'' ≡ r' = ground arith in ap table (sym same) ∙ add_entries-put r as' _ hk

  insert_from_config-put :
      (r : Rib) (f : Family) (as' : List PathAttribute) (n : NlriEncoding) (now : ℕ) {r' : Rib}
      → insert_from_config lib {E = SessionError} r f as' n now ≡ ok r'
      → table r'
        ≡ put as' (record { family = f; source = config; timestamp = now; nlri = n } ∷ []) (table r)
  unfolding insert_from_config
  insert_from_config-put r f as' n now {r'} h =
      let ((k, r''), hk, last) = >>=-eq-ok (add_entries lib r as' _) _ h in
      let same : r'' ≡ r' = ground arith in ap table (sym same) ∙ add_entries-put r as' _ hk

  remove_from_peer-gone :
      (r : Rib) (ip : IpAddr) → table (remove_from_peer r ip) ≡ gone ip (table r)
  unfolding keep
  remove_from_peer-gone r ip = ap Quot.mk (pairs-remove_from_peer r ip)

  update_from_peer-announced :
      (r : Rib) (ip : IpAddr) (clock : ℕ → ℕ) (u : Update) {r' : Rib}
      → Leaves (update_from_peer lib r ip clock u) r'
      → table r'
        ≡ announced ip clock
            (parse_update lib u)
            (withdrawn ip (mp_routes u ++ u.withdrawn_routes) (table r))
  unfolding keep add put routes_read update_from_peer announce
  update_from_peer-announced r ip clock u {r'} l =
      split (mp_withdraws (lib.find u id_mp_unreach_nlri)) refl (parse_update lib u) refl l
    where
      read :
          {mp : List NlriEncoding}
          → mp_withdraws (lib.find u id_mp_unreach_nlri) ≡ ok mp
          → routes_read (mp_withdraws (lib.find u id_mp_unreach_nlri)) ≡ mp
      read hm = ap routes_read hm

      split :
          (m : Outcome (SessionError × Rib) (List NlriEncoding))
          → mp_withdraws (lib.find u id_mp_unreach_nlri) ≡ m
          → (p : Outcome SessionError Parsed) → parse_update lib u ≡ p
          → Leaves (update_from_peer lib r ip clock u) r'
          → table r'
            ≡ announced ip clock
                (parse_update lib u)
                (withdrawn ip (mp_routes u ++ u.withdrawn_routes) (table r))
      split (ok mp) hm (ok (attributes, family, nlri)) hp (inl h) =
          let (key, hashes, perm) = update_from_peer-pairs lib r ip clock u hm hp h in
          rw (hp, read hm, hashes) (Quot.sound perm)
      split (ok mp) hm (err e) hp l =
          let (left, kept) = update_from_peer-err lib r ip clock u hm hp in
          let same : withdraw_some lib r ip (mp ++ u.withdrawn_routes) ≡ r' = left_by left l in
          rw (hp, read hm) (ap Quot.mk (ap pairs (sym same) ∙ kept))
      split (ok mp) hm panic hp l = absurd (panics (rw (hm, hp) refl) l)
      split (ok mp) hm (ok (attributes, family, nlri)) hp (inr (e, h)) = absurd (
          add_entries-ne-err lib (withdraw_some lib r ip (mp ++ u.withdrawn_routes)) attributes
            (stamped (peer ip) family clock 0 nlri) (rw (hm, hp) at h))
      split (err e) hm p hp l = absurd (mp_withdraws-ne-err (lib.find u id_mp_unreach_nlri) e hm)
      split panic hm p hp l = absurd (panics (rw hm refl) l)

  -- After any history of operations, those that failed included, the table holds the entries that the
  -- operations put into it and did not take out again, as often as they were put in.
  pub table-wanted : {r : Rib} (w : Reach lib r) → table r ≡ wanted w
  unfolding new pairs flat_map
  table-wanted start = refl
  table-wanted (updated {r} ip clock u w l) =
      update_from_peer-announced r ip clock u l
      ∙ ap
          (λ t.
            announced ip clock (parse_update lib u)
              (withdrawn ip (mp_routes u ++ u.withdrawn_routes) t))
          (table-wanted w)
  table-wanted (from_api {r} f as' n now e w h) =
      insert_from_api-put r f as' n now h
      ∙ ap (put as' (record { family = f; source = api; timestamp = now; nlri = n } ∷ []))
          (table-wanted w)
  table-wanted (from_config {r} f as' n now w h) =
      insert_from_config-put r f as' n now h
      ∙ ap (put as' (record { family = f; source = config; timestamp = now; nlri = n } ∷ []))
          (table-wanted w)
  table-wanted (removed {r} ip w) = remove_from_peer-gone r ip ∙ ap (gone ip) (table-wanted w)
