-- ===== src/Prelude/Table.antt =====
-- A database table, newest row first: what the repository calls `findOne`, `find` and `save` do.
pub mod Positions
pub mod Alone
use mathlib.Core.Path.{◌≡◌, refl}
use mathlib.Core.Bool.{Bool, true, false}
use mathlib.Core.Option.{Option, none, some}
use mathlib.Core.List.{List, [], ◌∷◌}
use mathlib.Core.Logic.{inl, inr}
use native.Mathlib.Omega.{arith}
use Prim.Native.String.{String}
use subscription_billing_eng.Prelude.Tests.{str_eq, Bool-cases, Option-cases, if◌then◌else◌}

module _ {ℓ} {A : Type ℓ} where
  -- `findOne`: the newest row that matches.
  unfoldable pub find : (A → Bool) → List A → Option A
  find p [] = none
  find p (x ∷ xs) = let rest = find p xs in if p x then some x else rest

  -- The row of `a`'s key becomes `a`.
  unfoldable pub replace : (A → String) → A → List A → List A
  replace key a [] = []
  replace key a (x ∷ xs) = if str_eq (key x) (key a) then a ∷ xs else x ∷ replace key a xs

  -- `save`: an update of the row with this key, or an insert where there is none.
  unfoldable pub save : (A → String) → A → List A → List A
  save key a xs = elim (find (λ x. str_eq (key x) (key a)) xs) [
    | none ↦ a ∷ xs
    | some _ ↦ replace key a xs
  ]

  module _ (key : A → String) (p : A → Bool) (a : A) where
    pub find-replace :
        {y : A} (xs : List A)
        → p a ≡ true
        → ((x : A) → p x ≡ true → str_eq (key x) (key a) ≡ true)
        → find (λ x. str_eq (key x) (key a)) xs ≡ some y
        → find p (replace key a xs) ≡ some a
    unfolding find replace
    find-replace [] hit only e = cc
    find-replace (x ∷ xs) hit only e = elim (Bool-cases (str_eq (key x) (key a))) [
      | inl same ↦ rw (same, hit)
      | inr other ↦ elim (Bool-cases (p x)) [
        | inl hits ↦ cc (only x hits)
        | inr miss ↦ rw (other, miss) (find-replace xs hit only (rw other at e))
      ]
    ]

    -- A saved row is the one that a search for its key finds.
    pub find-save :
        (xs : List A)
        → p a ≡ true
        → ((x : A) → p x ≡ true → str_eq (key x) (key a) ≡ true)
        → find p (save key a xs) ≡ some a
    unfolding save find
    find-save xs hit only = elim (Option-cases (find (λ x. str_eq (key x) (key a)) xs)) [
      | inl fresh ↦ rw (fresh, save) (rw hit)
      | inr (y, e) ↦ rw (e, save) (find-replace xs hit only e)
    ]

    find-replace_other :
        (xs : List A)
        → p a ≡ false
        → ((x : A) → str_eq (key x) (key a) ≡ true → p x ≡ false)
        → find p (replace key a xs) ≡ find p xs
    unfolding find replace
    find-replace_other [] miss only = refl
    find-replace_other (x ∷ xs) miss only = elim (Bool-cases (str_eq (key x) (key a))) [
      | inl same ↦ rw (same, miss, only x same)
      | inr other ↦ rw (other, find-replace_other xs miss only)
    ]

    -- A save leaves the rows of other keys as they were.
    pub find-save_other :
        (xs : List A)
        → p a ≡ false
        → ((x : A) → str_eq (key x) (key a) ≡ true → p x ≡ false)
        → find p (save key a xs) ≡ find p xs
    unfolding save find
    find-save_other xs miss only = elim (Option-cases (find (λ x. str_eq (key x) (key a)) xs)) [
      | inl fresh ↦ rw (fresh, save) (rw miss)
      | inr (y, e) ↦ rw (e, save) (find-replace_other xs miss only)
    ]

  -- A row that is found matches.
  pub find-holds : (p : A → Bool) (xs : List A) {x : A} → find p xs ≡ some x → p x ≡ true
  unfolding find
  find-holds p [] e = cc
  find-holds p (y ∷ ys) {x} e = elim (Bool-cases (p y)) [
    | inl hit ↦ ground arith
    | inr miss ↦ find-holds p ys (ground arith)
  ]
