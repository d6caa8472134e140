-- ===== src/Calibration/Journal/Dicts.antt =====
-- What changes in a journal's dictionary of runs when one entry is written.
use openai_model_router.Prelude.{
  ◌≡◌, ◌≢◌, refl, sym, ap, subst, ◌∙◌, String, none, some, [], ◌∷◌, Bool, true, false, ◌==◌, beq→eq,
  beq_self, beq_comm, string_eq, option_eq, Bool-cases, inl, inr, arith, Dict, lookup, insert,
  lookup-insert, keys, select, all, is_some, some-injective, HasDistinctKeys, no_keys, new_key, In,
  here, there, In-all,
}
use openai_model_router.Calibration.Journal.{Run, run_eq, is_changed, changed}

module _ (f : String → Bool) (key : String) (own : f key ≡ true)
    (others : (k : String) → (key == k) ≡ false → f k ≡ false) where
  select-others : (d : Dict Run) → lookup key d ≡ none → select f (keys d) ≡ []
  unfolding select lookup
  select-others [] h = refl
  select-others ((k, w) ∷ d) h = elim (Bool-cases (k == key)) [
    | inl q ↦ absurd (ground arith)
    | inr q ↦ rw (others k (beq_comm key k ∙ q)) (select-others d (rw q at h))
  ]

  select-insert_new :
      (v : Run) (d : Dict Run) → lookup key d ≡ none → select f (keys (insert key v d)) ≡ key ∷ []
  unfolding select lookup insert
  select-insert_new v [] h = rw own refl
  select-insert_new v ((k, w) ∷ d) h = elim (Bool-cases (k == key)) [
    | inl q ↦ absurd (ground arith)
    | inr q ↦ rw q (rw (others k (beq_comm key k ∙ q)) (select-insert_new v d (rw q at h)))
  ]

  select-insert_old :
      (v old : Run) (d : Dict Run)
      → HasDistinctKeys d
      → lookup key d ≡ some old
      → select f (keys (insert key v d)) ≡ key ∷ []
  unfolding select lookup insert
  select-insert_old v old _ no_keys h = absurd (ground arith)
  select-insert_old v old ((k, w) ∷ d) (new_key g distinct) h = elim (Bool-cases (k == key)) [
    | inl q ↦ rw q (
        rw own (
          ap (λ xs. key ∷ xs)
            (select-others d (subst (λ x. lookup x d ≡ none) (beq→eq k key q) g))))
    | inr q ↦
        rw q (rw (others k (beq_comm key k ∙ q)) (select-insert_old v old d distinct (rw q at h)))
  ]

is_changed-other :
    (key : String) (v : Run) (d : Dict Run) (k : String)
    → (key == k) ≡ false
    → is_changed d (insert key v d) k ≡ false
unfolding is_changed
is_changed-other key v d k h = rw (lookup-insert key k v d) (rw h (rw (beq_self (lookup k d)) refl))

is_changed-own :
    (key : String) (v : Run) (d : Dict Run)
    → lookup key d ≢ some v
    → is_changed d (insert key v d) key ≡ true
unfolding is_changed
is_changed-own key v d h = rw (lookup-insert key key v d) (
    rw (beq_self key) (elim (Bool-cases (lookup key d == some v)) [
      | inl q ↦ absurd (h (beq→eq (lookup key d) (some v) q))
      | inr q ↦ rw q refl
    ]))

pub changed-new :
    (key : String) (v : Run) (d : Dict Run)
    → lookup key d ≡ none
    → changed d (insert key v d) ≡ key ∷ []
unfolding changed
changed-new key v d h =
    select-insert_new (is_changed d (insert key v d)) key
      (is_changed-own key v d (λ q. let clash : none ≡ some v = sym h ∙ q in cc))
      (is_changed-other key v d) v d h

pub changed-old :
    (key : String) (v old : Run) (d : Dict Run)
    → HasDistinctKeys d
    → lookup key d ≡ some old
    → old ≢ v
    → changed d (insert key v d) ≡ key ∷ []
unfolding changed
changed-old key v old d distinct h differs =
    select-insert_old (is_changed d (insert key v d)) key
      (is_changed-own key v d (λ q. differs (some-injective (sym h ∙ q))))
      (is_changed-other key v d) v old d distinct h

lookup-keys : (k : String) (d : Dict Run) → In k (keys d) → is_some (lookup k d) ≡ true
unfolding lookup
lookup-keys k [] m = elim m [ ]
lookup-keys k ((j, w) ∷ d) (here p) = rw (ap (λ x. x == k) (sym p) ∙ beq_self k) refl
lookup-keys k ((j, w) ∷ d) (there m) = elim (Bool-cases (j == k)) [
  | inl q ↦ rw q refl
  | inr q ↦ rw q (lookup-keys k d m)
]

-- Writing an entry keeps every key.
pub keys-kept :
    (key : String) (v : Run) (d : Dict Run)
    → all (λ k. is_some (lookup k (insert key v d))) (keys d) ≡ true
keys-kept key v d = In-all _ (keys d) (λ k m. kept k (lookup-keys k d m))
  where
    kept : (k : String) → is_some (lookup k d) ≡ true → is_some (lookup k (insert key v d)) ≡ true
    kept k h =
        rw (lookup-insert key k v d)
          (elim (Bool-cases (key == k)) [ inl q ↦ rw q refl | inr q ↦ rw q h ])
