-- ===== src/Cli/Args/Paths.antt =====
-- src/cli/mod.rs: an AS path as the tables show it, given back as an argument.
use bgpd_rs.Base.{
  ℕ, ◌^◌, ◌/◌, ◌%◌, ltb, Bool-cases, inl, inr, ◌<◌, ◌≡◌, refl, ◌∙◌, ap, nat_eq, Bool, ◌||◌, List,
  [], ◌∷◌, map, some, Outcome, ok, err, collect,
}
use bgpd_rs.Base.Text.{Text, is_digit, decimal, split, split_once, parse_uint}
use bgpd_rs.Base.Text.Decimal.{All, decimal-All}
use bgpd_rs.Base.Text.Split.{All-append, split_one_of, split-append_of}
use bgpd_rs.Base.Within.{Every}
use bgpd_rs.Bgp.{as_sequence}
use bgpd_rs.Api.Routes.{show_as_path}
use bgpd_rs.Api.Rpc.{new_route}
use bgpd_rs.Cli.Args.{Route, route_spec, filled, split_words}
use bgpd_rs.Rib.Community.Notation.{join}
use bgpd_rs.Utils.Display.{u32_to_dotted}
use bgpd_rs.Utils.Error.{ParseError, bad_asn, bad_number}
use bgpd_rs.Utils.Numbers.{asn_from_dotted}
use bgpd_rs.Utils.Numbers.Dotted.{asn_from_dotted-u32_to_dotted}
use bgpd_rs.Utils.Specs.{parse_asns}

-- The characters of AS numbers.
abbrev plain : ℕ → Bool
plain c = is_digit c || nat_eq c b'.'

All-plain : (t : Text) → All is_digit t → All plain t
All-plain [] h = tt
All-plain (c ∷ t) (h, hs) = (rw h refl, All-plain t hs)

dotted-plain : (n : ℕ) → All plain (u32_to_dotted n b'.')
unfolding u32_to_dotted
dotted-plain n = elim (Bool-cases (ltb n 65535)) [
  | inl small ↦ rw small (All-plain (decimal n) (decimal-All n))
  | inr large ↦ rw large (
      All-append plain (decimal (n / 65536 % 65536)) (b'.' ∷ decimal (n % 65536))
        (All-plain _ (decimal-All (n / 65536 % 65536)))
        (refl, All-plain _ (decimal-All (n % 65536))))
]

split-join :
    (t : Text) (ts : List Text)
    → All plain t
    → Every (All plain) ts
    → split b' ' (join (b' ' ∷ []) (t ∷ ts)) ≡ t ∷ ts
unfolding join
split-join t [] h hs = split_one_of plain b' ' refl t h
split-join t (u ∷ us) h (k, ks) =
    split-append_of plain b' ' refl t (join (b' ' ∷ []) (u ∷ us)) h
    ∙ ap (λ l. t ∷ l) (split-join u us k ks)

abbrev dotted : ℕ → Text
dotted n = u32_to_dotted n b'.'

Every-plain : (ns : List ℕ) → Every (All plain) (map dotted ns)
Every-plain [] = tt
Every-plain (n ∷ ns) = (dotted-plain n, Every-plain ns)

parse_asns-dotted : (ns : List ℕ) → Every (λ n. n < 2 ^ 32) ns → parse_asns (map dotted ns) ≡ ok ns
unfolding parse_asns collect
parse_asns-dotted [] h = refl
parse_asns-dotted (n ∷ ns) (h, hs) =
    rw (asn_from_dotted-u32_to_dotted n h, parse_asns-dotted ns hs) refl

-- What is read of the text of a path of one sequence.
abbrev pub read_back : List ℕ → Outcome ParseError (List ℕ)
read_back [] = err (bad_asn (bad_number []))
read_back (n ∷ ns) = ok (n ∷ ns)

-- The text of an AS path of one sequence, as the tables show it, can be given back as the path of a
-- route: the specification has its AS numbers. The text of the empty path is refused.
pub parse_asns-show_as_path :
    (r : Route) (ns : List ℕ)
    → Every (λ m. m < 2 ^ 32) ns
    → r.as_path ≡ some (show_as_path (record { segments = as_sequence ns ∷ [] }))
    → parse_asns (route_spec r).attributes.as_path ≡ read_back ns
unfolding route_spec filled split_words show_as_path join parse_asns collect asn_from_dotted split
    split_once parse_uint
parse_asns-show_as_path r [] small given =
    ap (λ p. parse_asns (split_words p (new_route r.prefix r.next_hop).attributes.as_path)) given
parse_asns-show_as_path r (n ∷ ns) small given =
    ap (λ p. parse_asns (split_words p (new_route r.prefix r.next_hop).attributes.as_path)) given
    ∙ ap parse_asns (split-join (dotted n) (map dotted ns) (dotted-plain n) (Every-plain ns))
    ∙ parse_asns-dotted (n ∷ ns) small
