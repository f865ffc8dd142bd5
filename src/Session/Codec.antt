-- ===== src/Session/Codec.antt =====
-- src/session/codec.rs: the boundaries of the messages in a buffer of octets. The search for the
-- preamble and the reader of a message are parameters.
pub mod Framing
use bgpd_rs.Base.{
  ℕ, ◌+◌, ◌*◌, ltb, Bool, true, false, if◌then◌else◌, List, [], ◌∷◌, ◌++◌, length, Option, none,
  some, Outcome, ok, err, panic, ◌>>=◌,
}
use Prim.Native.Nat.{zero, suc}
use bgpd_rs.Bgp.{Message}

unfoldable pub drop {ℓ} : {A : Type ℓ} → ℕ → List A → List A
drop zero xs = xs
drop (suc n) [] = []
drop (suc n) (x ∷ xs) = drop n xs

unfoldable pub take {ℓ} : {A : Type ℓ} → ℕ → List A → List A
take zero xs = []
take (suc n) [] = []
take (suc n) (x ∷ xs) = x ∷ take n xs

abbrev pub preamble : List ℕ
preamble =
    255 ∷ 255 ∷ 255 ∷ 255 ∷ 255 ∷ 255 ∷ 255 ∷ 255 ∷ 255 ∷ 255 ∷ 255 ∷ 255 ∷ 255 ∷ 255 ∷ 255 ∷ 255
    ∷ []

pub record MsgRange : Type 0 where
  pub start : ℕ
  pub stop : ℕ

-- `read_u16` in network order; its `unwrap` panics at the end of the buffer.
unfoldable pub read_u16 {ℓ} : {E : Type ℓ} → List ℕ → Outcome E ℕ
read_u16 (hi ∷ lo ∷ bytes) = ok (hi * 256 + lo)
read_u16 _ = panic

module _ (find_bytes : List ℕ → List ℕ → Option ℕ) (read : List ℕ → Outcome ℕ Message) where
  message_at {ℓ} : {E : Type ℓ} → List ℕ → Option ℕ → Outcome E (Option MsgRange)
  unfolding drop read_u16
  message_at bytes none = ok none
  message_at bytes (some start) = do
    length ← read_u16 (drop 16 (drop start bytes))
    ok (some (record { start = start; stop = start + length }))

  -- `none` is the error that no preamble was found.
  unfoldable pub find_msg_range {ℓ} : {E : Type ℓ} → List ℕ → Outcome E (Option MsgRange)
  unfolding message_at
  find_msg_range bytes = message_at bytes (find_bytes bytes preamble)

  -- `&buf[start..stop]`
  unfoldable pub slice {ℓ} : {E : Type ℓ} → MsgRange → List ℕ → Outcome E (List ℕ)
  unfolding drop take
  slice range buf =
      if ltb range.stop range.start
      then panic
      else if ltb (length buf) range.stop
      then panic
      else ok (drop range.start (take range.stop buf))

  read_range : List ℕ → Option MsgRange → Outcome ℕ (Option Message × List ℕ)
  unfolding slice
  read_range buf none = ok (none, buf)
  read_range buf (some range) = do
    bytes ← slice range buf
    message ← read bytes
    ok (some message, drop range.stop buf)

  -- The message, if there is one, and what is left of the buffer.
  unfoldable pub decode : List ℕ → Outcome ℕ (Option Message × List ℕ)
  unfolding find_msg_range read_range
  decode buf = do found ← find_msg_range buf; read_range buf found
