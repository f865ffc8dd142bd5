-- ===== src/Base/Outcomes.antt =====
-- What a call gives: a value, the error of a `Result`, or a panic.
use mathlib.Core.Path.{◌≡◌, refl}
use mathlib.Core.List.{List, [], ◌∷◌}
use mathlib.Core.Option.{Option, none, some}

pub data Outcome {ℓ κ} (E : Type ℓ) (A : Type κ) : Type (ℓ ⊔ κ) where
  ok : A → Outcome E A
  err : E → Outcome E A
  panic : Outcome E A

-- The error type of a function that can only panic.
pub data Never : Type 0 where

infixl 5 ◌>>=◌
abbrev pub ◌>>=◌ {ℓ κ μ} :
    {E : Type ℓ} {A : Type κ} {B : Type μ} → Outcome E A → (A → Outcome E B) → Outcome E B
panic >>= f = panic
err e >>= f = err e
ok a >>= f = f a

abbrev pub or_err {ℓ κ} : {E : Type ℓ} {A : Type κ} → Option A → E → Outcome E A
or_err none e = err e
or_err (some a) e = ok a

-- `expect` and `unwrap`.
abbrev pub expect {ℓ κ} : {E : Type ℓ} {A : Type κ} → Option A → Outcome E A
expect none = panic
expect (some a) = ok a

abbrev pub map_err {ℓ κ μ} :
    {E : Type ℓ} {F : Type κ} {A : Type μ} → (E → F) → Outcome E A → Outcome F A
map_err f (ok a) = ok a
map_err f (err e) = err (f e)
map_err f panic = panic

-- A function that cannot fail, called where errors of type `E` are passed on.
abbrev pub lift {ℓ κ} : {E : Type ℓ} {A : Type κ} → Outcome Never A → Outcome E A
lift (ok a) = ok a
lift (err e) = panic
lift panic = panic

-- Each element in turn; the first failure ends the walk.
unfoldable pub collect {ℓ κ μ} :
    {E : Type ℓ} {A : Type κ} {B : Type μ} → (A → Outcome E B) → List A → Outcome E (List B)
collect f [] = ok []
collect f (x ∷ xs) = do y ← f x; ys ← collect f xs; ok (y ∷ ys)

-- Inversion of a successful chain.
pub >>=-eq-ok {ℓ κ μ} :
    {E : Type ℓ} {A : Type κ} {B : Type μ} (first : Outcome E A) (rest : A → Outcome E B) {last : B}
    → (first >>= rest) ≡ ok last
    → (a : A) × (first ≡ ok a) × (rest a ≡ ok last)
>>=-eq-ok panic rest e = cc
>>=-eq-ok (err _) rest e = cc
>>=-eq-ok (ok a) rest e = (a, refl, e)

pub expect-eq-ok {ℓ κ} :
    {E : Type ℓ} {A : Type κ} (found : Option A) {a : A}
    → expect {E = E} found ≡ ok a
    → found ≡ some a
expect-eq-ok none e = cc
expect-eq-ok (some b) e = cc

pub map_err-eq-ok {ℓ κ μ} :
    {E : Type ℓ} {F : Type κ} {A : Type μ} (f : E → F) (found : Outcome E A) {a : A}
    → map_err f found ≡ ok a
    → found ≡ ok a
map_err-eq-ok f (ok b) e = cc
map_err-eq-ok f (err x) e = cc
map_err-eq-ok f panic e = cc
