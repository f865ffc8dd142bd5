-- ===== src/Rib/Insertions/Peer.antt =====
-- src/rib/mod.rs: a route that a peer announces in the table.
pub mod Announced
use mathlib.Core.List.{append_assoc, map-append}
use bgpd_rs.Base.{
  ℕ, suc, ◌+◌, ◌≡◌, ◌≤◌, ◌<◌, refl, sym, ◌∙◌, ap, subst, Bool, true, false, List, [], ◌∷◌, ◌++◌,
  map, some, flat_map, Bool-cases, inl, inr, Outcome, ok, err, panic, expect, >>=-eq-ok, ◌==◌,
  nat_Eq, nat_eq_iff, arith,
}
use bgpd_rs.Base.Map
use bgpd_rs.Base.Map.{Map}
use bgpd_rs.Base.Within.{
  Within, cons-Within, append-Within, Every, Every-append, Every-split, Every-map, map-Within,
}
use bgpd_rs.Bgp.{IpAddr, PathAttribute, NlriEncoding, Update, id_mp_unreach_nlri}
use bgpd_rs.Rib.{
  Rib, pairs, keyed, add_entries, attributes_of, stamped, announce, withdraw_some, mp_withdraws,
  update_from_peer,
}
use bgpd_rs.Rib.Attributes.{AttributeApi, PathAttributes, cache_insert, from_attributes, from_group}
use bgpd_rs.Rib.Coherent.{cache_insert-ok}
use bgpd_rs.Rib.Entry.{EntrySource, peer, RibEntry}
use bgpd_rs.Rib.Families.{Family}
use bgpd_rs.Rib.Insertions.Api.{Unused}
use bgpd_rs.Rib.Insertions.Taken.{Sole}
use bgpd_rs.Rib.Parse.{Parsed, parse_update}
use bgpd_rs.Session.Error.{SessionError}

-- A list with some elements more, next to each other.
pub record Block {ℓ} {A : Type ℓ} (xs old new : List A) : Type ℓ where
  pub before : List A
  pub after : List A
  pub was : old ≡ before ++ after
  pub is : new ≡ before ++ (xs ++ after)

flat-upsert-Block :
    (k : ℕ) (es : List RibEntry) (m : Map ℕ (List RibEntry))
    → Block
        (keyed (k, es))
        (flat_map keyed m)
        (flat_map keyed (Map.upsert k [] (λ old. old ++ es) m))
unfolding flat_map Map.upsert keyed
flat-upsert-Block k es [] = record { before = []; after = []; was = refl; is = refl }
flat-upsert-Block k es ((j, old) ∷ m) = elim (Bool-cases (j == k)) [
  | inl same ↦ record {
    before = keyed (j, old);
    after = flat_map keyed m;
    was = refl;
    is = rw same (
        ap (λ t. t ++ flat_map keyed m) (map-append (λ f. (j, f)) old es)
        ∙ append_assoc (keyed (j, old)) (keyed (j, es)) (flat_map keyed m)
        ∙ ap (λ i. keyed (j, old) ++ (keyed (i, es) ++ flat_map keyed m))
            ((nat_eq_iff j k).0 same));
  }
  | inr other ↦
      let a = flat-upsert-Block k es m in
      record {
        before = keyed (j, old) ++ a.before;
        after = a.after;
        was =
            ap (λ t. keyed (j, old) ++ t) a.was
            ∙ sym (append_assoc (keyed (j, old)) a.before a.after);
        is = rw other (
            ap (λ t. keyed (j, old) ++ t) a.is
            ∙ sym (append_assoc (keyed (j, old)) a.before (keyed (k, es) ++ a.after)));
      }
]

-- Readings of the clock that are all different.
abbrev pub Distinct : (ℕ → ℕ) → Type 0
Distinct clock = (i j : ℕ) → clock i ≡ clock j → i ≡ j

module _ (source : EntrySource) (family : Family) (clock : ℕ → ℕ) (distinct : Distinct clock) where
  other_reading : (i j : ℕ) → i < j → (clock j == clock i) ≡ false
  other_reading i j h = elim (Bool-cases (clock j == clock i)) [
    | inl e ↦ absurd (omega (arith, distinct j i ((nat_eq_iff (clock j) (clock i)).0 e)))
    | inr e ↦ e
  ]

  -- The entry is the only one with its time stamp.
  abbrev Single : RibEntry → RibEntry → Type 0
  Single e x = (x.timestamp == e.timestamp) ≡ true → x ≡ e

  later-Single :
      (e : RibEntry) (i j : ℕ) (ns : List NlriEncoding)
      → e.timestamp ≡ clock i
      → i < j
      → Every (Single e) (stamped source family clock j ns)
  unfolding stamped
  later-Single e i j [] at h = tt
  later-Single e i j (n ∷ ns) at h =
      let differs : (clock j == e.timestamp) ≡ false =
        ap (λ t. clock j == t) at ∙ other_reading i j h in
      ((λ same. cc), later-Single e i (suc j) ns at (omega arith))

  -- The entry of one of the routes.
  pub record Stamped (a : ℕ) (ns : List NlriEncoding) (n : NlriEncoding) : Type 0 where
    pub index : ℕ
    pub not_before : a ≤ index
    pub here :
        Within
          (record { source = source; family = family; timestamp = clock index; nlri = n })
          (stamped source family clock a ns)
    pub single :
        Every
          (Single (record { source = source; family = family; timestamp = clock index; nlri = n }))
          (stamped source family clock a ns)

  Stamped-at :
      (a : ℕ) (before : List NlriEncoding) (n : NlriEncoding) (after : List NlriEncoding)
      → Stamped a (before ++ n ∷ after) n
  unfolding stamped
  Stamped-at a [] n after =
      let e : RibEntry = record {
        source = source;
        family = family;
        timestamp = clock a;
        nlri = n;
      } in
      record {
        index = a;
        not_before = omega arith;
        here = record {
          before = [];
          after = stamped source family clock (suc a) after;
          whole = refl;
        };
        single = ((λ same. refl), later-Single e a (suc a) after refl (omega arith));
      }
  Stamped-at a (b ∷ before) n after =
      let s = Stamped-at (suc a) before n after in
      let differs : (clock a == clock s.index) ≡ false =
        earlier a s.index (omega (arith, s.not_before)) in
      record {
        index = s.index;
        not_before = omega (arith, s.not_before);
        here = cons-Within _ s.here;
        single = ((λ same. cc), s.single);
      }
    where
      earlier : (i j : ℕ) → i < j → (clock i == clock j) ≡ false
      earlier i j h = elim (Bool-cases (clock i == clock j)) [
        | inl e ↦ absurd (omega (arith, distinct i j ((nat_eq_iff (clock i) (clock j)).0 e)))
        | inr e ↦ e
      ]

  pub Within-Stamped : {ns : List NlriEncoding} {n : NlriEncoding} → Within n ns → Stamped 0 ns n
  Within-Stamped {ns} {n} w =
      subst (λ l. Stamped 0 l n) (sym w.whole) (Stamped-at 0 w.before n w.after)
