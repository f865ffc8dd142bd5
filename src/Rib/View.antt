-- ===== src/Rib/View.antt =====
-- src/rib/mod.rs: what each operation does to the entries of the table.
use mathlib.Core.List.Perm
use mathlib.Core.List.{perm_append_comm, append_assoc, append-nil, map-append}
use bgpd_rs.Base.{
  ℕ, ◌≡◌, refl, sym, ap, ◌∙◌, Bool, not, ◌&&◌, List, [], ◌∷◌, ◌++◌, is_empty, retain, retain-append,
  retain-retain, retain_congr, retain-map, retain_all, flat_map, contains, Perm, ◌==◌, nat_Eq,
  nat_eq_iff, arith, Bool-cases, inl, inr,
}
use bgpd_rs.Base.Map
use bgpd_rs.Base.Map.{Map}
use bgpd_rs.Bgp.{IpAddr, NlriEncoding, nlri_Eq}
use bgpd_rs.Rib.Entry.{peer, source_Eq, RibEntry}
use bgpd_rs.Rib.{
  Rib, keyed, pairs, retain_entries, cleanup, withdraw_each, remove_from_peer, withdraw_peer_nlri,
}

abbrev Groups : Type 0
Groups = Map ℕ (List RibEntry)

retain-keyed :
    (keep : RibEntry → Bool) (g : ℕ × List RibEntry)
    → keyed (g.0, retain keep g.1) ≡ retain (λ p. keep p.1) (keyed g)
unfolding keyed
retain-keyed keep (k, es) = sym (retain-map (λ p. keep p.1) (λ e. (k, e)) es)

flat-retain_entries :
    (keep : RibEntry → Bool) (m : Groups)
    → flat_map keyed (retain_entries keep m) ≡ retain (λ p. keep p.1) (flat_map keyed m)
unfolding flat_map retain_entries
flat-retain_entries keep [] = unfold retain in refl
flat-retain_entries keep (g ∷ m) =
    simp (retain-append, flat-retain_entries keep m, retain-keyed keep g)

-- Groups with no entries hold nothing.
flat-nonempty :
    (m : Groups) → flat_map keyed (retain (λ g. not (is_empty g.1)) m) ≡ flat_map keyed m
unfolding flat_map retain keyed
flat-nonempty [] = refl
flat-nonempty ((k, []) ∷ m) = flat-nonempty m
flat-nonempty ((k, e ∷ es) ∷ m) = rw (flat-nonempty m)

pub pairs-cleanup : (r : Rib) → pairs (cleanup r) ≡ pairs r
unfolding pairs cleanup
pairs-cleanup r = flat-nonempty r.entries

-- The entries left when a peer is removed are those from elsewhere, in order.
pub pairs-remove_from_peer :
    (r : Rib) (ip : IpAddr)
    → pairs (remove_from_peer r ip) ≡ retain (λ p. not (p.1.source == peer ip)) (pairs r)
unfolding remove_from_peer pairs cleanup
pairs-remove_from_peer r ip = flat-nonempty _ ∙ flat-retain_entries _ r.entries

flat-withdraw_each :
    (ip : IpAddr) (ns : List NlriEncoding) (m : Groups)
    → flat_map keyed (withdraw_each ip ns m)
      ≡ retain (λ p. not (p.1.source == peer ip && contains p.1.nlri ns)) (flat_map keyed m)
unfolding withdraw_each contains
flat-withdraw_each ip [] m = sym (retain_all _ (flat_map keyed m) (λ x. ground arith))
flat-withdraw_each ip (n ∷ ns) m =
    flat-withdraw_each ip ns _
    ∙ ap (retain _) (flat-retain_entries _ m)
    ∙ retain-retain _ _ (flat_map keyed m)
    ∙ retain_congr _ _ (flat_map keyed m) (λ x. ground arith)

-- The entries left by a withdrawal are all but the peer's entries for a withdrawn route.
pub pairs-withdraw_peer_nlri :
    (r : Rib) (ip : IpAddr) (ns : List NlriEncoding)
    → pairs (withdraw_peer_nlri r ip ns)
      ≡ retain (λ p. not (p.1.source == peer ip && contains p.1.nlri ns)) (pairs r)
unfolding withdraw_peer_nlri pairs cleanup
pairs-withdraw_peer_nlri r ip ns = flat-nonempty _ ∙ flat-withdraw_each ip ns r.entries

perm_into {ℓ} :
    {A : Type ℓ} (a b c : List A) {ab d : List A}
    → ab ≡ a ++ b
    → b ≡ d
    → Perm (ab ++ c) ((a ++ c) ++ d)
perm_into a b c p q =
    rw (p, ← q, append_assoc, append_assoc) (Perm.append_left a (perm_append_comm b c))

-- An insertion adds its entries under the key, and moves nothing else.
pub flat-upsert :
    (k : ℕ) (es : List RibEntry) (m : Groups)
    → Perm
        (flat_map keyed (Map.upsert k [] (λ old. old ++ es) m))
        (flat_map keyed m ++ keyed (k, es))
unfolding flat_map Map.upsert keyed
flat-upsert k es [] = rw append-nil (Perm.refl _)
flat-upsert k es ((j, old) ∷ m) = elim (Bool-cases (j == k)) [
  | inl same ↦ rw same (
      perm_into (keyed (j, old)) (keyed (j, es)) (flat_map keyed m)
        (map-append (λ e. (j, e)) old es) (ap (λ i. keyed (i, es)) ((nat_eq_iff j k).0 same)))
  | inr other ↦ rw other (rw append_assoc (Perm.append_left (keyed (j, old)) (flat-upsert k es m)))
]
