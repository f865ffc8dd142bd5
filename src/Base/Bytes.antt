-- ===== src/Base/Bytes.antt =====
-- Octets, most significant first: `to_be_bytes`, `from_be_bytes` and `octets` of `std`.
use Prim.Native.Nat.{ℕ, zero, suc, ◌+◌, ◌*◌, ◌/◌, ◌%◌}
use mathlib.Core.List.{List, [], ◌∷◌, ◌++◌}

-- The `k` octets of a number.
unfoldable pub octets : ℕ → ℕ → List ℕ
octets zero n = []
octets (suc k) n = octets k (n / 256) ++ (n % 256) ∷ []

unfoldable pub number_from : ℕ → List ℕ → ℕ
number_from acc [] = acc
number_from acc (b ∷ bytes) = number_from (acc * 256 + b) bytes

unfoldable pub number : List ℕ → ℕ
unfolding number_from
number = number_from 0
