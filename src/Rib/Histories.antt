-- ===== src/Rib/Histories.antt =====
-- src/rib/mod.rs: what holds of the table after any history of its operations.
pub mod Refinement
use bgpd_rs.Base.{
  ℕ, ◌≡◌, refl, ◌⊎◌, inl, inr, List, [], ◌∷◌, ◌++◌, Option, some, Outcome, ok, err, panic, ◌>>=◌,
  >>=-eq-ok, arith, nat_Eq, subst,
}
use bgpd_rs.Base.Map
use bgpd_rs.Bgp.{IpAddr, PathAttribute, NlriEncoding, Update, id_mp_unreach_nlri}
use bgpd_rs.Session.Error.{SessionError}
use bgpd_rs.Rib.Attributes.{AttributeApi, Group, hash, cache_insert}
use bgpd_rs.Rib.Coherent.{
  IsCoherent, new-IsCoherent, add_entries-IsCoherent, remove_from_peer-IsCoherent,
  withdraw_peer_nlri-IsCoherent,
}
use bgpd_rs.Rib.Entry.{RibEntry, ExportEntry}
use bgpd_rs.Rib.Families.{Family}
use bgpd_rs.Rib.Parse.{Parsed, parse_update}
use bgpd_rs.Rib.{
  Rib, Step, new, remove_from_peer, mp_withdraws, withdraw_some, announce, add_entries,
  attributes_of, update_from_peer, insert_from_api, insert_from_config,
}

-- The table that an operation leaves, also where it fails.
abbrev pub Leaves : Step → Rib → Type 0
Leaves s r = (s ≡ ok r) ⊎ ((e : SessionError) × (s ≡ err (e, r)))

mp_withdraws-ne-err :
    (a : Option PathAttribute) (e : SessionError × Rib) → ¬ (mp_withdraws a ≡ err e)
unfolding mp_withdraws
mp_withdraws-ne-err a e h = ground arith

Leaves_bind :
    {A : Type 0} {P : Type 0} (m : Outcome (SessionError × Rib) A) (f : A → Step) {r : Rib}
    → ((e : SessionError × Rib) → ¬ (m ≡ err e))
    → ((a : A) → Leaves (f a) r → P)
    → Leaves (m >>= f) r
    → P
Leaves_bind (ok a) f fine h l = h a l
Leaves_bind (err e) f fine h l = absurd (fine e refl)
Leaves_bind panic f fine h (inl l) = cc
Leaves_bind panic f fine h (inr (e, l)) = cc

module _ (lib : AttributeApi) where
  withdraw_some-IsCoherent :
      (r : Rib) (ip : IpAddr) (ns : List NlriEncoding)
      → IsCoherent lib r
      → IsCoherent lib (withdraw_some lib r ip ns)
  unfolding withdraw_some
  withdraw_some-IsCoherent r ip [] c = c
  withdraw_some-IsCoherent r ip (n ∷ ns) c = withdraw_peer_nlri-IsCoherent lib r ip (n ∷ ns) c

  add_entries-ne-err :
      (r : Rib) (as' : List PathAttribute) (es : List RibEntry) {e : SessionError × Rib}
      → ¬ ((add_entries lib r as' es >>= λ p. ok p.1) ≡ err e)
  unfolding add_entries cache_insert hash
  add_entries-ne-err r as' es h = ground arith

  announce-IsCoherent :
      (r : Rib) (ip : IpAddr) (clock : ℕ → ℕ) (p : Outcome SessionError Parsed) {r' : Rib}
      → IsCoherent lib r
      → Leaves (announce lib r ip clock p) r'
      → IsCoherent lib r'
  unfolding announce
  announce-IsCoherent r ip clock (err e) c (inl h) = cc
  announce-IsCoherent r ip clock (err e) c (inr (e', h)) = subst (IsCoherent lib) (ground arith) c
  announce-IsCoherent r ip clock panic c (inl h) = cc
  announce-IsCoherent r ip clock panic c (inr (e', h)) = cc
  announce-IsCoherent r ip clock (ok (attributes, family, nlri)) c (inl h) =
      let ((k, r''), hk, hr) = >>=-eq-ok (add_entries lib r attributes _) _ h in
      subst (IsCoherent lib) (ground arith) (add_entries-IsCoherent lib r attributes _ c hk)
  announce-IsCoherent r ip clock (ok (attributes, family, nlri)) c (inr (e, h)) =
      absurd (add_entries-ne-err r attributes _ h)

  update_from_peer-IsCoherent :
      (r : Rib) (ip : IpAddr) (clock : ℕ → ℕ) (u : Update) {r' : Rib}
      → IsCoherent lib r
      → Leaves (update_from_peer lib r ip clock u) r'
      → IsCoherent lib r'
  unfolding update_from_peer
  update_from_peer-IsCoherent r ip clock u c =
      Leaves_bind (mp_withdraws (lib.find u id_mp_unreach_nlri)) _
        (mp_withdraws-ne-err (lib.find u id_mp_unreach_nlri))
        λ ns l.
          announce-IsCoherent (withdraw_some lib r ip (ns ++ u.withdrawn_routes)) ip clock
            (parse_update lib u) (withdraw_some-IsCoherent r ip (ns ++ u.withdrawn_routes) c) l

  insert_from_config-IsCoherent :
      (r : Rib) (f : Family) (as' : List PathAttribute) (n : NlriEncoding) (now : ℕ) {r' : Rib}
      → IsCoherent lib r
      → insert_from_config lib {E = SessionError} r f as' n now ≡ ok r'
      → IsCoherent lib r'
  unfolding insert_from_config
  insert_from_config-IsCoherent r f as' n now {r'} c h =
      let ((k, r''), hk, hr) = >>=-eq-ok (add_entries lib r as' _) _ h in
      subst (IsCoherent lib) (ground arith) (add_entries-IsCoherent lib r as' _ c hk)

  insert_from_api-IsCoherent :
      (r : Rib) (f : Family) (as' : List PathAttribute) (n : NlriEncoding) (now : ℕ)
      {e : ExportEntry} {r' : Rib}
      → IsCoherent lib r
      → insert_from_api lib {E = SessionError} r f as' n now ≡ ok (e, r')
      → IsCoherent lib r'
  unfolding insert_from_api
  insert_from_api-IsCoherent r f as' n now {r' = r'} c h =
      let ((k, r''), hk, hr) = >>=-eq-ok (add_entries lib r as' _) _ h in
      let (a, ha, hb) = >>=-eq-ok (attributes_of r''.cache k) _ hr in
      subst (IsCoherent lib) (ground arith) (add_entries-IsCoherent lib r as' _ c hk)

  -- The tables that the operations of the daemon can lead to.
  pub data Reach : Rib → Type 0 where
    start : Reach new
    updated :
        {r r' : Rib} (ip : IpAddr) (clock : ℕ → ℕ) (u : Update)
        → Reach r
        → Leaves (update_from_peer lib r ip clock u) r'
        → Reach r'
    from_api :
        {r r' : Rib} (f : Family) (as' : List PathAttribute) (n : NlriEncoding) (now : ℕ)
        (e : ExportEntry)
        → Reach r
        → insert_from_api lib {E = SessionError} r f as' n now ≡ ok (e, r')
        → Reach r'
    from_config :
        {r r' : Rib} (f : Family) (as' : List PathAttribute) (n : NlriEncoding) (now : ℕ)
        → Reach r
        → insert_from_config lib {E = SessionError} r f as' n now ≡ ok r'
        → Reach r'
    removed : {r : Rib} (ip : IpAddr) → Reach r → Reach (remove_from_peer r ip)

  pub Reach-IsCoherent : {r : Rib} → Reach r → IsCoherent lib r
  Reach-IsCoherent start = new-IsCoherent lib
  Reach-IsCoherent (updated ip clock u w l) =
      update_from_peer-IsCoherent _ ip clock u (Reach-IsCoherent w) l
  Reach-IsCoherent (from_api f as' n now e w h) =
      insert_from_api-IsCoherent _ f as' n now (Reach-IsCoherent w) h
  Reach-IsCoherent (from_config f as' n now w h) =
      insert_from_config-IsCoherent _ f as' n now (Reach-IsCoherent w) h
  Reach-IsCoherent (removed ip w) = remove_from_peer-IsCoherent lib _ ip (Reach-IsCoherent w)

  -- After any history of operations, those that failed included, a key has entries or an empty
  -- slot in the table exactly if it has a group in the cache, and a group in the cache hashes to its key.
  pub cached_after_any_history :
      {r : Rib}
      → Reach r
      → (k : ℕ)
      → (Map.contains_key k r.entries ≡ Map.contains_key k r.cache)
        × ((g : Group) → Map.get k r.cache ≡ some g → hash lib {E = SessionError} g ≡ ok k)
  cached_after_any_history w k = let c = Reach-IsCoherent w in (c.cached k, c.hashed k)
