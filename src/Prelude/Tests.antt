-- ===== src/Prelude/Tests.antt =====
-- Boolean tests, Python's `==` as an instance argument, and case lemmas.
use Prim.Native.Nat.{ℕ, ◌≤◌, ◌<◌, compare, Ordering}
use Prim.Native.String.{String}
use mathlib.Core.Path.{◌≡◌, refl, sym}
use mathlib.Core.Logic.{◌↔◌, ◌≢◌, ◌⊎◌, inl, inr}
use mathlib.Core.Bool.{Bool, true, false}
use mathlib.Core.Option.{Option, none, some}
use native.Mathlib.Omega.{arith}
use text.Mathlib.Text.{◌==◌ as str_eq}
use text.Mathlib.TextEquality.{eq_iff}

abbrev pub ltb : ℕ → ℕ → Bool
ltb a b = elim (compare a b) [ Ordering.lt ↦ true | _ ↦ false ]

abbrev pub leb : ℕ → ℕ → Bool
leb a b = elim (compare a b) [ Ordering.gt ↦ false | _ ↦ true ]

abbrev pub nat_beq : ℕ → ℕ → Bool
nat_beq a b = elim (compare a b) [ Ordering.eq ↦ true | _ ↦ false ]

infix 1 if◌then◌else◌
abbrev pub if◌then◌else◌ {ℓ} : {A : Type ℓ} → Bool → A → A → A
if true then x else y = x
if false then x else y = y

pub Bool-cases : (b : Bool) → (b ≡ true) ⊎ (b ≡ false)
Bool-cases true = inl refl
Bool-cases false = inr refl

pub Option-cases {ℓ} : {A : Type ℓ} (o : Option A) → (o ≡ none) ⊎ ((a : A) × (o ≡ some a))
Option-cases none = inl refl
Option-cases (some a) = inr (a, refl)

pub ltb→lt : (a b : ℕ) → ltb a b ≡ true → a < b
ltb→lt a b h = ground arith

pub ltb→ge : (a b : ℕ) → ltb a b ≡ false → b ≤ a
ltb→ge a b h = ground arith

pub lt→ltb : (a b : ℕ) → a < b → ltb a b ≡ true
lt→ltb a b h = ground arith

pub ge→ltb : (a b : ℕ) → b ≤ a → ltb a b ≡ false
ge→ltb a b h = ground arith

pub nat_equal_iff : (m n : ℕ) → (nat_beq m n ≡ true) ↔ (m ≡ n)
nat_equal_iff m n = ground arith

-- A type whose values Python's `==` compares.
pub record Eq {κ} (V : Type κ) : Type κ where
  pub same : V → V → Bool
  pub same_iff : (v w : V) → (same v w ≡ true) ↔ (v ≡ w)

instance abbrev pub string_eq : Eq String
string_eq = record { same = str_eq; same_iff = eq_iff }

instance abbrev pub nat_eq : Eq ℕ
nat_eq = record { same = nat_beq; same_iff = nat_equal_iff }

infix 50 ◌==◌
-- `v == w`
abbrev pub ◌==◌ {κ} : {V : Type κ} ⦃eq : Eq V⦄ → V → V → Bool
◌==◌ ⦃eq⦄ v w = eq.same v w

module _ {ℓ} {A : Type ℓ} ⦃e : Eq A⦄ where
  pub beq_self : (a : A) → (a == a) ≡ true
  beq_self a = (e.same_iff a a).1 refl

  pub beq→eq : (a b : A) → (a == b) ≡ true → a ≡ b
  beq→eq a b h = (e.same_iff a b).0 h

  pub beq-false→ne : (a b : A) → (a == b) ≡ false → a ≢ b
  beq-false→ne a b h p = ground (arith, (e.same_iff a b).1 p)

-- An optional upper bound that `x` exceeds: `limit is not None and x > limit`.
abbrev pub exceeds : ℕ → Option ℕ → Bool
exceeds x none = false
exceeds x (some limit) = ltb limit x

-- The bound holds where it is given.
abbrev pub AtMost : ℕ → Option ℕ → Type 0
AtMost x none = Unit
AtMost x (some limit) = x ≤ limit

pub exceeds-false→AtMost : (x : ℕ) (o : Option ℕ) → exceeds x o ≡ false → AtMost x o
exceeds-false→AtMost x none h = tt
exceeds-false→AtMost x (some l) h = ltb→ge l x h

pub AtMost→exceeds-false : (x : ℕ) (o : Option ℕ) → AtMost x o → exceeds x o ≡ false
AtMost→exceeds-false x none h = refl
AtMost→exceeds-false x (some l) h = ge→ltb l x h

abbrev pub is_some {ℓ} : {A : Type ℓ} → Option A → Bool
is_some none = false
is_some (some _) = true

module _ {ℓ} {A : Type ℓ} ⦃e : Eq A⦄ where
  pub beq_comm : (a b : A) → (a == b) ≡ (b == a)
  beq_comm a b = elim (Bool-cases (a == b)) [
    | inl p ↦ rw (p, beq→eq a b p) (sym (beq_self b))
    | inr p ↦ elim (Bool-cases (b == a)) [
      | inl q ↦ absurd (beq-false→ne a b p (sym (beq→eq b a q)))
      | inr q ↦ rw (p, q) refl
    ]
  ]

abbrev pub option_same {ℓ} : {A : Type ℓ} ⦃e : Eq A⦄ → Option A → Option A → Bool
option_same none none = true
option_same none (some b) = false
option_same (some a) none = false
option_same (some a) (some b) = a == b

pub option_same_iff {ℓ} :
    {A : Type ℓ} ⦃e : Eq A⦄ (v w : Option A) → (option_same v w ≡ true) ↔ (v ≡ w)
option_same_iff none none = ground arith
option_same_iff none (some b) = ground arith
option_same_iff (some a) none = ground arith
option_same_iff ⦃e⦄ (some a) (some b) = ground (arith, e.same_iff a b)

instance abbrev pub option_eq {ℓ} : {A : Type ℓ} ⦃e : Eq A⦄ → Eq (Option A)
option_eq = record { same = option_same; same_iff = option_same_iff }

pub some-injective {ℓ} : {A : Type ℓ} {a b : A} → some a ≡ some b → a ≡ b
some-injective h = cc
