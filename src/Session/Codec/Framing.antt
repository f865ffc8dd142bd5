-- ===== src/Session/Codec/Framing.antt =====
-- src/session/codec.rs: what `decode` makes of a buffer that starts with a message.
use bgpd_rs.Base.{
  ℕ, ◌+◌, ◌*◌, ◌<◌, ◌≡◌, refl, ap, ◌∙◌, ◌≤◌, List, [], ◌∷◌, ◌++◌, length, length-append, Option,
  some, Outcome, ok, panic, arith,
}
use bgpd_rs.Bgp.{Message}
use bgpd_rs.Session.Codec.{drop, take, preamble, decode, find_msg_range, slice, read_u16}

-- The documented behaviour of the search, for a buffer that starts with what is searched.
abbrev pub FindsFront : (List ℕ → List ℕ → Option ℕ) → Type 0
FindsFront find_bytes = (n xs : List ℕ) → find_bytes (n ++ xs) n ≡ some 0

drop-length {ℓ} : {A : Type ℓ} (xs ys : List A) → drop (length xs) (xs ++ ys) ≡ ys
unfolding drop
drop-length [] ys = refl
drop-length (x ∷ xs) ys = drop-length xs ys

take-length {ℓ} : {A : Type ℓ} (xs ys : List A) → take (length xs) (xs ++ ys) ≡ xs
unfolding take
take-length [] ys = refl
take-length (x ∷ xs) ys = ap (λ zs. x ∷ zs) (take-length xs ys)

abbrev pub frame : ℕ → ℕ → List ℕ → List ℕ
frame hi lo body = preamble ++ hi ∷ lo ∷ body

-- What follows a preamble has no whole length, or fewer octets than the length says.
abbrev pub EndsEarly : List ℕ → Type 0
EndsEarly (hi ∷ lo ∷ body) = length (frame hi lo body) < hi * 256 + lo
EndsEarly _ = Unit

module _ (find_bytes : List ℕ → List ℕ → Option ℕ) (finds : FindsFront find_bytes)
    (read : List ℕ → Outcome ℕ Message) where
  decode-whole :
      (buf : List ℕ) (n : ℕ) {m : Message}
      → find_bytes buf preamble ≡ some 0
      → read_u16 {E = ℕ} (drop 16 buf) ≡ ok n
      → n ≤ length buf
      → read (take n buf) ≡ ok m
      → decode find_bytes read buf ≡ ok (some m, drop n buf)
  unfolding decode find_msg_range slice
  decode-whole buf n f r l m = ground (arith, f, r, l, m)

  decode-short :
      (buf : List ℕ) (n : ℕ)
      → find_bytes buf preamble ≡ some 0
      → read_u16 {E = ℕ} (drop 16 buf) ≡ ok n
      → length buf < n
      → decode find_bytes read buf ≡ panic
  unfolding decode find_msg_range slice
  decode-short buf n f r l = ground (arith, f, r, l)

  -- A buffer that starts with a whole message gives that message, and what follows it stays for
  -- the next call.
  pub decode-frame :
      (hi lo : ℕ) (body rest : List ℕ) {m : Message}
      → hi * 256 + lo ≡ length (frame hi lo body)
      → read (frame hi lo body) ≡ ok m
      → decode find_bytes read (frame hi lo body ++ rest) ≡ ok (some m, rest)
  unfolding read_u16 drop
  decode-frame hi lo body rest {m} whole reads =
      let buf = frame hi lo body ++ rest in
      let n = length (frame hi lo body) in
      let bound : n ≤ length buf =
        (let e = length-append (frame hi lo body) rest in omega (arith, e)) in
      let read_n : read (take n buf) ≡ ok m = rw (take-length (frame hi lo body) rest) reads in
      let left : drop n buf ≡ rest = drop-length (frame hi lo body) rest in
      decode-whole buf n (finds preamble (hi ∷ lo ∷ body ++ rest)) (ap (λ k. ok k) whole) bound
        read_n
      ∙ ap (λ xs. ok (some m, xs)) left

  -- A buffer that starts with a whole preamble and ends before the end of its message, be it in the
  -- length or after it, makes the decoder panic.
  pub decode-partial :
      (rest : List ℕ) → EndsEarly rest → decode find_bytes read (preamble ++ rest) ≡ panic
  unfolding read_u16 drop decode find_msg_range
  decode-partial [] early = rw (finds preamble []) refl
  decode-partial (hi ∷ []) early = rw (finds preamble (hi ∷ [])) refl
  decode-partial (hi ∷ lo ∷ body) early =
      decode-short (frame hi lo body) (hi * 256 + lo) (finds preamble (hi ∷ lo ∷ body)) refl early
