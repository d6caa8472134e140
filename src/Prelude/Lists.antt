-- ===== src/Prelude/Lists.antt =====
-- Lists as the program uses them: membership tests, ordered sets, sums and dictionaries.
use Prim.Native.Nat.{ℕ, zero, suc, ◌+◌}
use mathlib.Core.Path.{◌≡◌, refl, sym, ap, subst, ◌∙◌}
use mathlib.Core.Logic.{◌⊎◌, inl, inr}
use mathlib.Core.Bool.{Bool, true, false, ◌&&◌, ◌||◌}
use mathlib.Core.Option.{Option, none, some}
use mathlib.Core.List.{List, [], ◌∷◌, ◌++◌}
use native.Mathlib.Omega.{arith}
use openai_model_router.Prelude.Tests.{Eq, ◌==◌, if◌then◌else◌, Bool-cases, beq→eq, string_eq}

-- Membership as an inductive family, so that a proof splits on the position.
pub data In {ℓ} {A : Type ℓ} (a : A) : List A → Type ℓ where
  here : {x : A} {xs : List A} → a ≡ x → In a (x ∷ xs)
  there : {x : A} {xs : List A} → In a xs → In a (x ∷ xs)

module _ {ℓ} {A : Type ℓ} where
  abbrev pub length : List A → ℕ
  length [] = 0
  length (x ∷ xs) = suc (length xs)

  -- `xs or ys` and the first item, for lists
  abbrev pub or_else : List A → List A → List A
  or_else [] ys = ys
  or_else (x ∷ xs) ys = x ∷ xs

  abbrev pub is_empty : List A → Bool
  is_empty [] = true
  is_empty (x ∷ xs) = false

  abbrev pub first : List A → Option A
  first [] = none
  first (x ∷ xs) = some x

  -- A comprehension's `if`, and the built-in `any` and `all`.
  unfoldable pub select : (A → Bool) → List A → List A
  select p [] = []
  select p (x ∷ xs) = let rest = select p xs in if p x then x ∷ rest else rest

  unfoldable pub any : (A → Bool) → List A → Bool
  any p [] = false
  any p (x ∷ xs) = p x || any p xs

  unfoldable pub all : (A → Bool) → List A → Bool
  all p [] = true
  all p (x ∷ xs) = p x && all p xs

  abbrev pub All {κ} : (A → Type κ) → List A → Type κ
  All P [] = Unit
  All P (x ∷ xs) = P x × All P xs

  pub All-In {κ} : (P : A → Type κ) (xs : List A) → ((a : A) → In a xs → P a) → All P xs
  All-In P [] h = tt
  All-In P (x ∷ xs) h = (h x (here refl), All-In P xs (λ a m. h a (there m)))

  pub In-All {κ} : (P : A → Type κ) (a : A) (xs : List A) → All P xs → In a xs → P a
  In-All P a [] h m = elim m [ ]
  In-All P a (x ∷ xs) h (here e) = subst P (sym e) h.0
  In-All P a (x ∷ xs) h (there m) = In-All P a xs h.1 m

  pub In-append_left : (a : A) (xs ys : List A) → In a xs → In a (xs ++ ys)
  In-append_left a [] ys m = elim m [ ]
  In-append_left a (x ∷ xs) ys (here e) = here e
  In-append_left a (x ∷ xs) ys (there m) = there (In-append_left a xs ys m)

  pub In-append_right : (a : A) (xs ys : List A) → In a ys → In a (xs ++ ys)
  In-append_right a [] ys m = m
  In-append_right a (x ∷ xs) ys m = there (In-append_right a xs ys m)

  pub In-append : (a : A) (xs ys : List A) → In a (xs ++ ys) → In a xs ⊎ In a ys
  In-append a [] ys m = inr m
  In-append a (x ∷ xs) ys (here e) = inl (here e)
  In-append a (x ∷ xs) ys (there m) = elim (In-append a xs ys m) [
    | inl l ↦ inl (there l)
    | inr r ↦ inr r
  ]

  pub In-singleton : (a x : A) → In a (x ∷ []) → a ≡ x
  In-singleton a x (here e) = e
  In-singleton a x (there m) = elim m [ ]

  In-select_cons :
      (p : A → Bool) (a x : A) (xs : List A)
      → p x ≡ true
      → (In a (select p xs) → In a xs × (p a ≡ true))
      → In a (x ∷ select p xs)
      → In a (x ∷ xs) × (p a ≡ true)
  In-select_cons p a x xs e rec (here q) = (here q, ap p q ∙ e)
  In-select_cons p a x xs e rec (there q) = let (l, r) = rec q in (there l, r)

  pub In-select : (p : A → Bool) (a : A) (xs : List A) → In a (select p xs) → In a xs × (p a ≡ true)
  unfolding select
  In-select p a [] m = elim m [ ]
  In-select p a (x ∷ xs) m = elim (Bool-cases (p x)) [
    | inl e ↦ In-select_cons p a x xs e (In-select p a xs) (rw e at m)
    | inr e ↦ let (l, r) = In-select p a xs (rw e at m) in (there l, r)
  ]

  pub select-In : (p : A → Bool) (a : A) (xs : List A) → In a xs → p a ≡ true → In a (select p xs)
  unfolding select
  select-In p a [] m h = elim m [ ]
  select-In p a (x ∷ xs) (here e) h = rw (ap p (sym e) ∙ h) (here e)
  select-In p a (x ∷ xs) (there m) h = elim (Bool-cases (p x)) [
    | inl e ↦ rw e (there (select-In p a xs m h))
    | inr e ↦ rw e (select-In p a xs m h)
  ]

  pub any-In : (p : A → Bool) (xs : List A) → any p xs ≡ true → (a : A) × In a xs × (p a ≡ true)
  unfolding any
  any-In p [] h = absurd (ground arith)
  any-In p (x ∷ xs) h = elim (Bool-cases (p x)) [
    | inl e ↦ (x, here refl, e)
    | inr e ↦ let (a, m, q) = any-In p xs (rw e at h) in (a, there m, q)
  ]

  pub In-any : (p : A → Bool) (a : A) (xs : List A) → In a xs → p a ≡ true → any p xs ≡ true
  unfolding any
  In-any p a [] m h = elim m [ ]
  In-any p a (x ∷ xs) (here e) h = rw (ap p (sym e) ∙ h) refl
  In-any p a (x ∷ xs) (there m) h = ground (arith, In-any p a xs m h)

  pub all-In : (p : A → Bool) (a : A) (xs : List A) → all p xs ≡ true → In a xs → p a ≡ true
  unfolding all
  all-In p a [] h m = elim m [ ]
  all-In p a (x ∷ xs) h (here e) = ap p e ∙ ground arith
  all-In p a (x ∷ xs) h (there m) = all-In p a xs (ground arith) m

  pub In-all : (p : A → Bool) (xs : List A) → ((a : A) → In a xs → p a ≡ true) → all p xs ≡ true
  unfolding all
  In-all p [] h = refl
  In-all p (x ∷ xs) h = rw (h x (here refl)) (In-all p xs (λ a m. h a (there m)))

-- A comprehension with two `for` clauses.
unfoldable pub concat_map {ℓ κ} : {A : Type ℓ} {B : Type κ} → (A → List B) → List A → List B
concat_map f [] = []
concat_map f (x ∷ xs) = f x ++ concat_map f xs

-- `sorted` with `le` for the order of the keys: stable insertion.
module _ {ℓ} {A : Type ℓ} (le : A → A → Bool) where
  unfoldable pub insert_by : A → List A → List A
  insert_by x [] = x ∷ []
  insert_by x (y ∷ ys) = if le x y then x ∷ y ∷ ys else y ∷ insert_by x ys

  unfoldable pub sort_by : List A → List A
  unfolding insert_by
  sort_by [] = []
  sort_by (x ∷ xs) = insert_by x (sort_by xs)

  In-insert_by : (a x : A) (ys : List A) → In a (insert_by x ys) → In a (x ∷ ys)
  unfolding insert_by
  In-insert_by a x [] m = m
  In-insert_by a x (y ∷ ys) m = elim (Bool-cases (le x y)) [
    | inl e ↦ rw e at m
    | inr e ↦ later (In-insert_by a x ys) (rw e at m)
  ]
    where
      later :
          (In a (insert_by x ys) → In a (x ∷ ys)) → In a (y ∷ insert_by x ys) → In a (x ∷ y ∷ ys)
      later rec (here q) = there (here q)
      later rec (there q) = swap (rec q)
        where
          swap : In a (x ∷ ys) → In a (x ∷ y ∷ ys)
          swap (here r) = here r
          swap (there r) = there (there r)

  pub In-sort_by : (a : A) (xs : List A) → In a (sort_by xs) → In a xs
  unfolding sort_by
  In-sort_by a [] m = m
  In-sort_by a (x ∷ xs) m = back (In-sort_by a xs) (In-insert_by a x (sort_by xs) m)
    where
      back : (In a (sort_by xs) → In a xs) → In a (x ∷ sort_by xs) → In a (x ∷ xs)
      back rec (here q) = here q
      back rec (there q) = there (rec q)

  insert_by-In : (a x : A) (ys : List A) → In a (x ∷ ys) → In a (insert_by x ys)
  unfolding insert_by
  insert_by-In a x [] m = m
  insert_by-In a x (y ∷ ys) m = elim (Bool-cases (le x y)) [
    | inl e ↦ rw e m
    | inr e ↦ rw e (swap (insert_by-In a x ys) m)
  ]
    where
      swap : (In a (x ∷ ys) → In a (insert_by x ys)) → In a (x ∷ y ∷ ys) → In a (y ∷ insert_by x ys)
      swap rec (here q) = there (rec (here q))
      swap rec (there (here q)) = here q
      swap rec (there (there n)) = there (rec (there n))

  pub sort_by-In : (a : A) (xs : List A) → In a xs → In a (sort_by xs)
  unfolding sort_by
  sort_by-In a [] m = m
  sort_by-In a (x ∷ xs) (here q) = insert_by-In a x (sort_by xs) (here q)
  sort_by-In a (x ∷ xs) (there m) = insert_by-In a x (sort_by xs) (there (sort_by-In a xs m))

unfoldable pub sum : List ℕ → ℕ
sum [] = 0
sum (x ∷ xs) = x + sum xs

pub sum-append : (xs ys : List ℕ) → sum (xs ++ ys) ≡ sum xs + sum ys
unfolding sum
sum-append [] ys = omega arith
sum-append (x ∷ xs) ys = omega (arith, sum-append xs ys)

module _ {ℓ} {A : Type ℓ} ⦃e : Eq A⦄ where
  -- `a in xs`
  unfoldable pub contains : A → List A → Bool
  contains a [] = false
  contains a (x ∷ xs) = (a == x) || contains a xs

  -- `if value not in values: values.append(value)`
  unfoldable pub append_once : List A → A → List A
  append_once xs a = if contains a xs then xs else xs ++ a ∷ []

  -- `tuple(dict.fromkeys(values))`: each value once, at its first position.
  unfoldable pub unique_from : List A → List A → List A
  unique_from seen [] = []
  unique_from seen (x ∷ xs) =
      let skip = unique_from seen xs in
      let keep = x ∷ unique_from (x ∷ seen) xs in if contains x seen then skip else keep

  unfoldable pub unique : List A → List A
  unfolding unique_from
  unique xs = unique_from [] xs

  pub contains→In : (a : A) (xs : List A) → contains a xs ≡ true → In a xs
  unfolding contains
  contains→In a [] h = absurd (ground arith)
  contains→In a (x ∷ xs) h = elim (Bool-cases (a == x)) [
    | inl q ↦ here (beq→eq a x q)
    | inr q ↦ there (contains→In a xs (ground arith))
  ]

  pub In→contains : (a : A) (xs : List A) → In a xs → contains a xs ≡ true
  unfolding contains
  In→contains a [] m = elim m [ ]
  In→contains a (x ∷ xs) (here q) = ground (arith, (e.same_iff a x).1 q)
  In→contains a (x ∷ xs) (there m) = ground (arith, In→contains a xs m)

  pub In-append_once : (a x : A) (xs : List A) → In a (append_once xs x) → In a xs ⊎ (a ≡ x)
  unfolding append_once
  In-append_once a x xs m = elim (Bool-cases (contains x xs)) [
    | inl q ↦ inl (rw q at m)
    | inr q ↦ elim (In-append a xs (x ∷ []) (rw q at m)) [
      | inl l ↦ inl l
      | inr r ↦ inr (In-singleton a x r)
    ]
  ]

  pub append_once-In : (x : A) (xs : List A) → In x (append_once xs x)
  unfolding append_once
  append_once-In x xs = elim (Bool-cases (contains x xs)) [
    | inl q ↦ rw q (contains→In x xs q)
    | inr q ↦ rw q (In-append_right x xs (x ∷ []) (here refl))
  ]

  pub append_once-keeps : (a x : A) (xs : List A) → In a xs → In a (append_once xs x)
  unfolding append_once
  append_once-keeps a x xs m = elim (Bool-cases (contains x xs)) [
    | inl q ↦ rw q m
    | inr q ↦ rw q (In-append_left a xs (x ∷ []) m)
  ]

module _ {ℓ} {A : Type ℓ} ⦃e : Eq A⦄ where
  In-unique_from : (a : A) (seen xs : List A) → In a xs → In a seen ⊎ In a (unique_from seen xs)
  unfolding unique_from
  In-unique_from a seen [] m = elim m [ ]
  In-unique_from a seen (x ∷ xs) (here p) = elim (Bool-cases (contains x seen)) [
    | inl q ↦ inl (subst (λ y. In y seen) (sym p) (contains→In x seen q))
    | inr q ↦ rw q (inr (here p))
  ]
  In-unique_from a seen (x ∷ xs) (there m) = elim (Bool-cases (contains x seen)) [
    | inl q ↦ rw q (In-unique_from a seen xs m)
    | inr q ↦ rw q (shift (In-unique_from a (x ∷ seen) xs m))
  ]
    where
      shift :
          In a (x ∷ seen) ⊎ In a (unique_from (x ∷ seen) xs)
          → In a seen ⊎ In a (x ∷ unique_from (x ∷ seen) xs)
      shift (inl (here r)) = inr (here r)
      shift (inl (there r)) = inl r
      shift (inr r) = inr (there r)

  unique_from-In : (a : A) (seen xs : List A) → In a (unique_from seen xs) → In a xs
  unfolding unique_from
  unique_from-In a seen [] m = elim m [ ]
  unique_from-In a seen (x ∷ xs) m = elim (Bool-cases (contains x seen)) [
    | inl q ↦ there (unique_from-In a seen xs (rw q at m))
    | inr q ↦ shift (unique_from-In a (x ∷ seen) xs) (rw q at m)
  ]
    where
      shift :
          (In a (unique_from (x ∷ seen) xs) → In a xs)
          → In a (x ∷ unique_from (x ∷ seen) xs)
          → In a (x ∷ xs)
      shift rec (here r) = here r
      shift rec (there r) = there (rec r)

  -- Removing repetitions keeps the members.
  pub In-unique : (a : A) (xs : List A) → In a xs → In a (unique xs)
  unfolding unique
  In-unique a xs m = elim (In-unique_from a [] xs m) [ inl n ↦ elim n [ ] | inr n ↦ n ]

  pub unique-In : (a : A) (xs : List A) → In a (unique xs) → In a xs
  unfolding unique
  unique-In a xs m = unique_from-In a [] xs m

-- `xs[:n]`
unfoldable pub take {ℓ} : {A : Type ℓ} → ℕ → List A → List A
take zero xs = []
take (suc n) [] = []
take (suc n) (x ∷ xs) = x ∷ take n xs
