-- ===== src/Rib/Attributes/Reading.antt =====
-- src/rib/attributes.rs: reading a group back.
use Prim.Native.Nat.{zero}
use bgpd_rs.Base.{
  ℕ, suc, Bool-cases, ◌+◌, ◌*◌, ◌≡◌, refl, ◌∙◌, true, ◌&&◌, if◌then◌else◌, List, [], ◌∷◌, ◌++◌,
  length, Option, none, some, Outcome, ok, panic, ◌==◌, nat_Eq, inl, inr, ◌≤◌, ◌<◌, arith,
}
use bgpd_rs.Base.Map
use bgpd_rs.Bgp.{
  v6, ipv6, unicast, PathAttribute, Identifier, identifier_Eq, variant, Identifier-discrete,
  MpReachNlri, afi_Eq, safi_Eq, id_origin, id_as_path, id_next_hop, id_multi_exit_disc,
  id_local_pref, id_community, id_extended_communities, id_mp_reach_nlri,
}
use bgpd_rs.Rib.Attributes.{
  AttributeApi, Group, PathAttributes, bytes_to_ipv6, number, collect_group, from_attributes,
  from_group, read_origin, read_next_hop, read_mp_next_hop, read_as_path, read_local_pref,
  read_multi_exit_disc, read_community, read_extended,
}

-- What `bgp_rs` documents of `PathAttribute::id`: it names the variant.
abbrev pub NamesVariants : AttributeApi → Type 0
NamesVariants lib = (a : PathAttribute) → lib.id a ≡ variant a

-- The last attribute of a kind, or a default.
unfoldable pub last_of :
    Identifier → Option PathAttribute → List PathAttribute → Option PathAttribute
last_of i d [] = d
last_of i d (a ∷ as') = last_of i (if variant a == i then some a else d) as'

module _ (lib : AttributeApi) (names : NamesVariants lib) where
  get-collect_group :
      (i : Identifier) (g : Group) (as' : List PathAttribute)
      → Map.get i (collect_group lib g as') ≡ last_of i (Map.get i g) as'
  unfolding collect_group last_of
  get-collect_group i g [] = refl
  get-collect_group i g (a ∷ as') =
      get-collect_group i (Map.insert (lib.id a) a g) as'
      ∙ rw (Map.get-insert (lib.id a) i a g, names a)

  pub get-from_attributes :
      (i : Identifier) (as' : List PathAttribute)
      → Map.get i (from_attributes lib as') ≡ last_of i none as'
  unfolding from_attributes Map.get
  get-from_attributes i as' = get-collect_group i [] as'

pub last_of-append :
    (i : Identifier) (d : Option PathAttribute) (xs ys : List PathAttribute)
    → last_of i d (xs ++ ys) ≡ last_of i (last_of i d xs) ys
unfolding last_of
last_of-append i d [] ys = refl
last_of-append i d (x ∷ xs) ys = last_of-append i (if variant x == i then some x else d) xs ys

-- An MP_REACH_NLRI whose next hop would be read has at least the sixteen octets of an address.
abbrev pub FitsV6 : PathAttribute → Type 0
FitsV6 (PathAttribute.mp_reach_nlri nlri) =
    (nlri.afi == ipv6 && nlri.safi == unicast) ≡ true → 16 ≤ length nlri.next_hop
FitsV6 _ = Unit {0}

abbrev pub All {ℓ κ} : {A : Type ℓ} → (A → Type κ) → List A → Type κ
All P [] = Unit
All P (x ∷ xs) = P x × All P xs

-- The attribute found under an identifier is of its variant, and one of the list.
abbrev Found : (PathAttribute → Type 0) → Identifier → Option PathAttribute → Type 0
Found P i none = Unit {0}
Found P i (some a) = (variant a ≡ i) × P a

last_of-Found :
    (P : PathAttribute → Type 0) (i : Identifier) (d : Option PathAttribute)
    (as' : List PathAttribute)
    → All P as'
    → Found P i d
    → Found P i (last_of i d as')
unfolding last_of
last_of-Found P i d [] w f = f
last_of-Found P i d (a ∷ as') w f =
    last_of-Found P i (if variant a == i then some a else d) as' w.1
      (elim (Bool-cases (variant a == i)) [
        | inl e ↦ rw e ((identifier_Eq.eq_iff (variant a) i).0 e, w.0)
        | inr e ↦ rw e f
      ])

number-total :
    (k acc : ℕ) (bytes : List ℕ) → k ≤ length bytes → (n : ℕ) × (number k acc bytes ≡ some n)
unfolding number
number-total zero acc bytes h = (acc, refl)
number-total (suc k) acc [] h = elim h [ ]
number-total (suc k) acc (b ∷ bytes) h = number-total k (acc * 256 + b) bytes (omega arith)

number-short : (k acc : ℕ) (bytes : List ℕ) → length bytes < k → number k acc bytes ≡ none
unfolding number
number-short zero acc bytes h = elim h [ ]
number-short (suc k) acc [] h = refl
number-short (suc k) acc (b ∷ bytes) h = number-short k (acc * 256 + b) bytes (omega arith)

All-any : (as' : List PathAttribute) → All (λ _. Unit {0}) as'
All-any [] = tt
All-any (a ∷ as') = (tt, All-any as')

last_of-mp :
    (nlri : MpReachNlri) (d : Option PathAttribute)
    → last_of id_mp_reach_nlri d (PathAttribute.mp_reach_nlri nlri ∷ [])
      ≡ some (PathAttribute.mp_reach_nlri nlri)
unfolding last_of variant Identifier-discrete
last_of-mp nlri d = refl

module _ {ℓ} {E : Type ℓ} where
  abbrev Total {κ} : {A : Type κ} → Outcome E A → Type (ℓ ⊔ κ)
  Total {A = A} r = (a : A) × (r ≡ ok a)

  read_origin-Total :
      (P : PathAttribute → Type 0) (o : Option PathAttribute)
      → Found P id_origin o
      → Total (read_origin {E = E} o)
  unfolding read_origin variant
  read_origin-Total P none f = (_, refl)
  read_origin-Total P (some (PathAttribute.origin x)) f = (_, refl)
  read_origin-Total P (some _) f = cc (f.0)

  read_next_hop-Total :
      (o : Option PathAttribute) → Found FitsV6 id_next_hop o → Total (read_next_hop {E = E} o)
  unfolding read_next_hop variant
  read_next_hop-Total none f = (_, refl)
  read_next_hop-Total (some (PathAttribute.next_hop x)) f = (_, refl)
  read_next_hop-Total (some _) f = cc (f.0)

  read_as_path-Total :
      (o : Option PathAttribute) → Found FitsV6 id_as_path o → Total (read_as_path {E = E} o)
  unfolding read_as_path variant
  read_as_path-Total none f = (_, refl)
  read_as_path-Total (some (PathAttribute.as_path x)) f = (_, refl)
  read_as_path-Total (some _) f = cc (f.0)

  read_local_pref-Total :
      (o : Option PathAttribute) → Found FitsV6 id_local_pref o → Total (read_local_pref {E = E} o)
  unfolding read_local_pref variant
  read_local_pref-Total none f = (_, refl)
  read_local_pref-Total (some (PathAttribute.local_pref x)) f = (_, refl)
  read_local_pref-Total (some _) f = cc (f.0)

  read_multi_exit_disc-Total :
      (o : Option PathAttribute)
      → Found FitsV6 id_multi_exit_disc o
      → Total (read_multi_exit_disc {E = E} o)
  unfolding read_multi_exit_disc variant
  read_multi_exit_disc-Total none f = (_, refl)
  read_multi_exit_disc-Total (some (PathAttribute.multi_exit_disc x)) f = (_, refl)
  read_multi_exit_disc-Total (some _) f = cc (f.0)

  read_community-Total :
      (o : Option PathAttribute) → Found FitsV6 id_community o → Total (read_community {E = E} o)
  unfolding read_community variant
  read_community-Total none f = (_, refl)
  read_community-Total (some (PathAttribute.community x)) f = (_, refl)
  read_community-Total (some _) f = cc (f.0)

  read_extended-Total :
      (o : Option PathAttribute)
      → Found FitsV6 id_extended_communities o
      → Total (read_extended {E = E} o)
  unfolding read_extended variant
  read_extended-Total none f = (_, refl)
  read_extended-Total (some (PathAttribute.extended_communities x)) f = (_, refl)
  read_extended-Total (some _) f = cc (f.0)

  bytes_to_ipv6-Total : (bytes : List ℕ) → 16 ≤ length bytes → Total (bytes_to_ipv6 {E = E} bytes)
  unfolding bytes_to_ipv6
  bytes_to_ipv6-Total bytes h = let (n, e) = number-total 16 0 bytes h in (v6 n, rw e)

  read_mp_next_hop-Total :
      (o p : Option PathAttribute)
      → Found FitsV6 id_mp_reach_nlri o
      → Found FitsV6 id_next_hop p
      → Total (read_mp_next_hop {E = E} o p)
  unfolding read_mp_next_hop variant
  read_mp_next_hop-Total none p f g = read_next_hop-Total p g
  read_mp_next_hop-Total (some (PathAttribute.mp_reach_nlri nlri)) p f g =
      elim (Bool-cases (nlri.afi == ipv6 && nlri.safi == unicast)) [
        | inl e ↦ let (a, r) = bytes_to_ipv6-Total nlri.next_hop (f.1 e) in (some a, rw (e, r))
        | inr e ↦ (none, rw e)
      ]
  read_mp_next_hop-Total (some _) p f g = (_, refl)

  -- A group made of attributes whose IPv6 next hops have sixteen octets or more can be read.
  pub from_group-total :
      (lib : AttributeApi) (as' : List PathAttribute)
      → NamesVariants lib
      → All FitsV6 as'
      → (a : PathAttributes) × (from_group {E = E} (from_attributes lib as') ≡ ok a)
  unfolding from_group
  from_group-total lib as' names w =
      let found = λ (i : Identifier). last_of-Found FitsV6 i none as' w tt in
      let (o, ho) = read_origin-Total FitsV6 _ (found id_origin) in
      let (n, hn) = read_mp_next_hop-Total _ _ (found id_mp_reach_nlri) (found id_next_hop) in
      let (p, hp) = read_as_path-Total _ (found id_as_path) in
      let (l, hl) = read_local_pref-Total _ (found id_local_pref) in
      let (m, hm) = read_multi_exit_disc-Total _ (found id_multi_exit_disc) in
      let (c, hc) = read_community-Total _ (found id_community) in
      let (x, hx) = read_extended-Total _ (found id_extended_communities) in
      (
        record {
          next_hop = n;
          origin = o;
          as_path = p;
          local_pref = l;
          multi_exit_disc = m;
          communities = c ++ x;
        },
        simp (get-from_attributes lib names) (rw (ho, hn, hp, hl, hm, hc, hx)),
      )

  read_mp-short :
      (nlri : MpReachNlri)
      → (nlri.afi == ipv6 && nlri.safi == unicast) ≡ true
      → length nlri.next_hop < 16
      → (p : Option PathAttribute)
      → read_mp_next_hop {E = E} (some (PathAttribute.mp_reach_nlri nlri)) p ≡ panic
  unfolding read_mp_next_hop bytes_to_ipv6
  read_mp-short nlri e h p = rw (e, number-short 16 0 nlri.next_hop h)

  -- Reading a group of attributes panics if its MP_REACH_NLRI is one for IPv6 unicast with a next hop
  -- of fewer than sixteen octets, whatever its other attributes are.
  pub from_group-short_next_hop :
      (lib : AttributeApi) (as' : List PathAttribute) (nlri : MpReachNlri)
      → NamesVariants lib
      → Map.get id_mp_reach_nlri (from_attributes lib as') ≡ some (PathAttribute.mp_reach_nlri nlri)
      → (nlri.afi == ipv6 && nlri.safi == unicast) ≡ true
      → length nlri.next_hop < 16
      → from_group {E = E} (from_attributes lib as') ≡ panic
  unfolding from_group
  from_group-short_next_hop lib as' nlri names there is_v6 short =
      let (o, ho) =
        read_origin-Total (λ _. Unit {0}) (last_of id_origin none as')
          (last_of-Found (λ _. Unit {0}) id_origin none as' (All-any as') tt) in
      rw (there, get-from_attributes lib names id_origin as', ho)
        (rw (read_mp-short nlri is_v6 short (Map.get id_next_hop (from_attributes lib as'))) refl)
