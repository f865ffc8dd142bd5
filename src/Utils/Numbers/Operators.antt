-- ===== src/Utils/Numbers/Operators.antt =====
-- src/utils/parse.rs: what an operator and its number are read as.
use bgpd_rs.Base.{
  ℕ, ◌^◌, ◌≤◌, ◌<◌, ◌≡◌, ap, ltb, nat_eq, Bool, true, false, not, ◌||◌, [], ◌∷◌, ◌++◌, some, ok,
  nat_Eq, contains, arith, ◌⊎◌, inl, inr, subst, sym,
}
use bgpd_rs.Base.Text.{Text, decimal}
use bgpd_rs.Base.Text.Decimal.{All, StartsDigit, decimal-StartsDigit, parse_uint-decimal}
use bgpd_rs.Bgp.{NumericOperator}
use bgpd_rs.Utils.Numbers.{
  parse_num_operator, read_operators, finish_operator, no_operator, is_empty_operator,
}

-- The characters of the operators.
abbrev pub is_operator : ℕ → Bool
is_operator c = nat_eq c b'>' || nat_eq c b'<' || nat_eq c b'='

abbrev with_operators : NumericOperator → Text → NumericOperator
with_operators o ops = record o {
  gt = o.gt || contains b'>' ops;
  lt = o.lt || contains b'<' ops;
  eq = o.eq || contains b'=' ops;
}

digit_ends : (o : NumericOperator) (t : Text) → StartsDigit t → read_operators o t ≡ (o, some t)
unfolding read_operators
digit_ends o [] h = absurd h
digit_ends o (c ∷ t) h = ground arith

which : (c : ℕ) → is_operator c ≡ true → (c ≡ b'>') ⊎ ((c ≡ b'<') ⊎ (c ≡ b'='))
which c h = ground arith

or_true : (b : Bool) → (b || true) ≡ true
or_true b = ground arith

read_operators-append :
    (o : NumericOperator) (ops t : Text)
    → All is_operator ops
    → StartsDigit t
    → read_operators o (ops ++ t) ≡ (with_operators o ops, some t)
unfolding read_operators contains
read_operators-append o [] t h k = ground (arith, digit_ends o t)
read_operators-append o (c ∷ ops) t (h, hs) k = elim (which c h) [
  | inl more ↦
      subst (λ c. read_operators o (c ∷ ops ++ t) ≡ (with_operators o (c ∷ ops), some t)) (sym more)
        (rw (or_true o.gt) (read_operators-append (record o { gt = true }) ops t hs k))
  | inr (inl less) ↦
      subst (λ c. read_operators o (c ∷ ops ++ t) ≡ (with_operators o (c ∷ ops), some t)) (sym less)
        (rw (or_true o.lt) (read_operators-append (record o { lt = true }) ops t hs k))
  | inr (inr same) ↦
      subst (λ c. read_operators o (c ∷ ops ++ t) ≡ (with_operators o (c ∷ ops), some t)) (sym same)
        (rw (or_true o.eq) (read_operators-append (record o { eq = true }) ops t hs k))
]

-- What a word with the operators `ops` should mean, at its place in the list.
abbrev pub meant : ℕ → Text → NumericOperator
meant index ops = record {
  and_bit = ltb 0 index;
  gt = contains b'>' ops;
  lt = contains b'<' ops;
  eq = contains b'=' ops || not (contains b'>' ops || contains b'<' ops);
  other_bits = 0;
}

-- The flags that the operators set, for EQ by default and AND by place.
finish_lem :
    (index : ℕ) (g l e : Bool)
    → finish_operator index (record { and_bit = false; gt = g; lt = l; eq = e; other_bits = 0 })
      ≡ record { and_bit = ltb 0 index; gt = g; lt = l; eq = e || not (g || l); other_bits = 0 }
unfolding finish_operator is_empty_operator
finish_lem index g l e = ground arith

-- A word of operators and a number that fits is read as what it means: EQ where there is no
-- operator, and AND from the second word on.
pub parse_num_operator-decimal :
    (max n index : ℕ) (ops : Text)
    → All is_operator ops
    → n ≤ max
    → n < 2 ^ 64
    → parse_num_operator max (ops ++ decimal n) index ≡ ok (meant index ops, n)
unfolding parse_num_operator
parse_num_operator-decimal max n index ops h fits small =
    rw (read_operators-append no_operator ops (decimal n) h (decimal-StartsDigit n)) (
      rw (parse_uint-decimal max n fits small) (
        ap (λ o. ok (o, n))
          (finish_lem index (contains b'>' ops) (contains b'<' ops) (contains b'=' ops))))
