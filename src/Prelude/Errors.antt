-- ===== src/Prelude/Errors.antt =====
-- Functions that may raise. An error is its class and the constant part of its message.
use Prim.Native.String.{String}
use mathlib.Core.Path.{◌≡◌, refl}
use mathlib.Core.Bool.{Bool, true, false}
use mathlib.Core.Option.{Option, none, some}

pub data Error : Type 0 where
  input_error configuration_error value_error key_error conflict_error unavailable_error :
      String → Error

pub data Raise {ℓ} (A : Type ℓ) : Type ℓ where
  ok : A → Raise A
  raise : Error → Raise A

infixl 5 ◌>>=◌ ◌>>◌
-- What follows runs on the value, unless an error was raised before.
abbrev pub ◌>>=◌ {κ ℓ} : {V : Type κ} {W : Type ℓ} → Raise V → (V → Raise W) → Raise W
raise error >>= next = raise error
ok value >>= next = next value

abbrev pub ◌>>◌ {κ} : {W : Type κ} → Raise (Unit {0}) → Raise W → Raise W
check >> next = check >>= (λ _. next)

-- `if condition: raise error`
abbrev pub raise_if : Bool → Error → Raise (Unit {0})
raise_if true x = raise x
raise_if false x = ok tt

-- A chain that returns has a first part that returns.
pub >>=-eq-ok {κ ℓ} :
    {V : Type κ} {W : Type ℓ} (first : Raise V) (next : V → Raise W) {w : W}
    → (first >>= next) ≡ ok w
    → (v : V) × (first ≡ ok v) × (next v ≡ ok w)
>>=-eq-ok (raise error) next returns = cc
>>=-eq-ok (ok v) next returns = (v, refl, returns)

pub raise_if-eq-ok {ℓ} :
    {B : Type ℓ} (c : Bool) (x : Error) (k : Raise B) {b : B}
    → (raise_if c x >> k) ≡ ok b
    → (c ≡ false) × (k ≡ ok b)
raise_if-eq-ok true x k h = cc
raise_if-eq-ok false x k h = (refl, h)

abbrev pub or_raise {ℓ} : {A : Type ℓ} → Error → Option A → Raise A
or_raise x none = raise x
or_raise x (some a) = ok a

pub ok-injective {ℓ} : {A : Type ℓ} {a b : A} → ok a ≡ ok b → a ≡ b
ok-injective h = cc
