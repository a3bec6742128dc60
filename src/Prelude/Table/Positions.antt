-- ===== src/Prelude/Table/Positions.antt =====
-- Where the rows of a table stand, and a save after a save.
use Prim.Native.Nat.{ℕ, zero, suc}
use Prim.Native.String.{String}
use mathlib.Core.Path.{◌≡◌, refl, ap, ◌∙◌, sym}
use mathlib.Core.Bool.{Bool, true}
use mathlib.Core.Option.{none, some}
use mathlib.Core.List.{List, [], ◌∷◌}
use mathlib.Core.Logic.{inl, inr}
use native.Mathlib.Omega.{arith}
use text.Mathlib.TextEquality.{eq_iff}
use text.Mathlib.TextPositions.{eq_refl}
use subscription_billing_eng.Prelude.Tests.{str_eq, Bool-cases, Option-cases}
use subscription_billing_eng.Prelude.Lists.{filter, get_elem?}
use subscription_billing_eng.Prelude.Table.{find, save, replace, find-replace}

module _ {ℓ} {A : Type ℓ} where
  -- A row that is found stands somewhere.
  pub find-get_elem? :
      (p : A → Bool) (xs : List A) {x : A}
      → find p xs ≡ some x
      → (n : ℕ) × (get_elem? xs n ≡ some x)
  unfolding find
  find-get_elem? p [] e = cc
  find-get_elem? p (y ∷ ys) {x} e = elim (Bool-cases (p y)) [
    | inl hit ↦ (0, ground arith)
    | inr miss ↦ let (n, at) = find-get_elem? p ys {x = x} (ground arith) in (suc n, at)
  ]

  -- A row that a filter keeps matches, and stands in the table.
  pub filter-get_elem? :
      (p : A → Bool) (xs : List A) (n : ℕ) {x : A}
      → get_elem? (filter p xs) n ≡ some x
      → (m : ℕ) × (get_elem? xs m ≡ some x) × (p x ≡ true)
  unfolding filter
  filter-get_elem? p [] n e = cc
  filter-get_elem? p (y ∷ ys) zero {x} e = elim (Bool-cases (p y)) [
    | inl hit ↦ (0, ground arith, ground arith)
    | inr miss ↦
        let (m, at, holds) = filter-get_elem? p ys zero {x = x} (ground arith) in (suc m, at, holds)
  ]
  filter-get_elem? p (y ∷ ys) (suc n) {x} e = elim (Bool-cases (p y)) [
    | inl hit ↦
        let (m, at, holds) = filter-get_elem? p ys n {x = x} (ground arith) in (suc m, at, holds)
    | inr miss ↦
        let (m, at, holds) = filter-get_elem? p ys (suc n) {x = x} (ground arith) in
        (suc m, at, holds)
  ]

  module _ (key : A → String) (a b : A) (same : key a ≡ key b) where
    replace-replace : (xs : List A) → replace key b (replace key a xs) ≡ replace key b xs
    unfolding replace
    replace-replace [] = refl
    replace-replace (x ∷ xs) = elim (Bool-cases (str_eq (key x) (key b))) [
      | inl hit ↦
          ground (arith, eq_iff (key x) (key a), eq_iff (key x) (key b), eq_iff (key a) (key b))
      | inr miss ↦
          ground (arith, eq_iff (key x) (key a), eq_iff (key x) (key b), replace-replace xs)
    ]

    -- Of two saves under one key the second counts.
    pub save-save : (xs : List A) → save key b (save key a xs) ≡ save key b xs
    unfolding save find replace
    save-save xs = elim (Option-cases (find (λ x. str_eq (key x) (key b)) xs)) [
      | inl fresh ↦
          let at_a : find (λ x. str_eq (key x) (key a)) xs ≡ none =
            ap (λ k. find (λ x. str_eq (key x) k) xs) same ∙ fresh in
          ground (arith, eq_iff (key a) (key b))
      | inr (y, e) ↦
          let at_a : find (λ x. str_eq (key x) (key a)) xs ≡ some y =
            ap (λ k. find (λ x. str_eq (key x) k) xs) same ∙ e in
          let again : find (λ x. str_eq (key x) (key b)) (replace key a xs) ≡ some a =
            ap (λ k. find (λ x. str_eq (key x) k) (replace key a xs)) (sym same)
            ∙ find-replace key (λ x. str_eq (key x) (key a)) a xs (eq_refl (key a)) (λ x h. h)
                at_a in
          ground (arith, replace-replace xs)
    ]
