-- ===== src/Prelude/Outcome.antt =====
-- A call that returns a value or raises a coded error.
use mathlib.Core.Path.{◌≡◌, refl}
use mathlib.Core.Bool.{Bool, true, false}
use mathlib.Core.Logic.{◌⊎◌, inl, inr}

pub data Result {ℓ κ} (E : Type ℓ) (A : Type κ) : Type (ℓ ⊔ κ) where
  err : E → Result E A
  ok : A → Result E A

-- `if test: fail(error)`.
abbrev pub reject_if {ℓ} : {E : Type ℓ} → Bool → E → Result E (Unit {0})
reject_if true error = err error
reject_if false error = ok tt

module _ {ℓ κ μ} {E : Type ℓ} {A : Type κ} {B : Type μ} where
  infixl 5 ◌>>=◌
  abbrev pub ◌>>=◌ : Result E A → (A → Result E B) → Result E B
  err error >>= next = err error
  ok value >>= next = next value

infixl 5 ◌>>◌
abbrev pub ◌>>◌ {ℓ κ} : {E : Type ℓ} {B : Type κ} → Result E (Unit {0}) → Result E B → Result E B
first >> second = first >>= λ _. second

-- A chain that returns was passed call by call.
pub >>=-eq-ok {ℓ κ μ} :
    {E : Type ℓ} {A : Type κ} {B : Type μ} {result : B} (m : Result E A) (next : A → Result E B)
    → ◌>>=◌ m next ≡ ok result
    → (value : A) × (m ≡ ok value) × (next value ≡ ok result)
>>=-eq-ok (err error) next h = cc
>>=-eq-ok (ok value) next returned = (value, refl, returned)

pub ok-injective {ℓ κ} :
    {E : Type ℓ} {A : Type κ} {a b : A} → ◌≡◌ {A = Result E A} (ok a) (ok b) → a ≡ b
ok-injective h = cc

-- A guard before a result that returns was passed.
pub reject-eq-ok {ℓ κ} :
    {E : Type ℓ} {A : Type κ} (b : Bool) (e : E) (x : A) {y : A}
    → (reject_if b e >>= λ _. ok x) ≡ ok y
    → (b ≡ false) × (x ≡ y)
reject-eq-ok true e x h = cc
reject-eq-ok false e x h = (refl, ok-injective h)

-- A guard before a call that returns was passed.
pub reject-then {ℓ κ} :
    {E : Type ℓ} {A : Type κ} (b : Bool) (e : E) (m : Result E A) {y : A}
    → (reject_if b e >> m) ≡ ok y
    → (b ≡ false) × (m ≡ ok y)
reject-then true e m h = cc
reject-then false e m h = (refl, h)

-- A chain that raises does so in its first call or after it.
pub >>=-eq-err {ℓ κ μ} :
    {E : Type ℓ} {A : Type κ} {B : Type μ} {error : E} (m : Result E A) (next : A → Result E B)
    → ◌>>=◌ m next ≡ err error
    → (m ≡ err error) ⊎ ((value : A) × (m ≡ ok value) × (next value ≡ err error))
>>=-eq-err (err e) next h = inl (cc h)
>>=-eq-err (ok value) next h = inr (value, refl, h)
