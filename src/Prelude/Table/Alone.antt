-- ===== src/Prelude/Table/Alone.antt =====
-- A row that alone matches a search, and what is found once it was replaced.
use mathlib.Core.Path.{◌≡◌, refl, sym, ap, ◌∙◌}
use mathlib.Core.Bool.{Bool, true, false, true≢false}
use mathlib.Core.Option.{none, some}
use mathlib.Core.List.{List, [], ◌∷◌}
use mathlib.Core.Logic.{inl, inr}
use native.Mathlib.Omega.{arith}
use Prim.Native.String.{String}
use subscription_billing_eng.Prelude.Tests.{str_eq, Bool-cases}
use subscription_billing_eng.Prelude.Lists.{filter}
use subscription_billing_eng.Prelude.Table.{find, replace, save, find-holds}

module _ {A : Type 0} where
  find-filter-none : (p : A → Bool) (xs : List A) → filter p xs ≡ [] → find p xs ≡ none
  unfolding filter find
  find-filter-none p [] h = refl
  find-filter-none p (x ∷ xs) h = elim (Bool-cases (p x)) [
    | inl hit ↦ ground arith
    | inr miss ↦ rw (find, miss) (find-filter-none p xs (ground arith))
  ]

  pub filter-holds :
      (p : A → Bool) (xs : List A) {k : A} {ks : List A} → filter p xs ≡ k ∷ ks → p k ≡ true
  unfolding filter
  filter-holds p [] {k} {ks} h = ground arith
  filter-holds p (x ∷ xs) {k} {ks} h = elim (Bool-cases (p x)) [
    | inl hit ↦ let e : x ≡ k = ground arith in ap p (sym e) ∙ hit
    | inr miss ↦ filter-holds p xs {ks = ks} (ground arith)
  ]

  -- The search finds the first row that the filter keeps.
  pub find-filter :
      (p : A → Bool) (xs : List A) {k : A} {ks : List A} → filter p xs ≡ k ∷ ks → find p xs ≡ some k
  unfolding filter find
  find-filter p [] {k} {ks} h = ground arith
  find-filter p (x ∷ xs) {k} {ks} h = elim (Bool-cases (p x)) [
    | inl hit ↦ let e : x ≡ k = ground arith in rw (find, hit) (ap some e)
    | inr miss ↦ rw (find, miss) (find-filter p xs {ks = ks} (ground arith))
  ]

  -- Where one row alone matches, and is the one of its identifier, none matches once it is replaced by
  -- a row that does not.
  replaced_only :
      (key : A → String) (p : A → Bool) (k a : A) (xs : List A)
      → p a ≡ false
      → p k ≡ true
      → filter p xs ≡ k ∷ []
      → find (λ x. str_eq (key x) (key a)) xs ≡ some k
      → find p (replace key a xs) ≡ none
  unfolding filter find replace
  replaced_only key p k a [] miss hit only first = refl
  replaced_only key p k a (x ∷ xs) miss hit only first =
      elim (Bool-cases (str_eq (key x) (key a))) [
        | inl same ↦
            let e : x ≡ k = ground arith in
            let rest : filter p xs ≡ [] = ground (arith, ap p e) in
            rw (replace, same) (rw (find, miss) (find-filter-none p xs rest))
        | inr other ↦ elim (Bool-cases (p x)) [
          | inl hits ↦
              let e : x ≡ k = ground arith in
              let holds = find-holds (λ y. str_eq (key y) (key a)) (x ∷ xs) first in
              absurd (true≢false (sym holds ∙ ap (λ y. str_eq (key y) (key a)) (sym e) ∙ other))
          | inr misses ↦
              rw (replace, other)
                (rw (find, misses)
                  (replaced_only key p k a xs miss hit (ground arith) (ground arith)))
        ]
      ]

  pub find-save_only :
      (key : A → String) (p : A → Bool) (k a : A) (xs : List A)
      → p a ≡ false
      → filter p xs ≡ k ∷ []
      → find (λ x. str_eq (key x) (key a)) xs ≡ some k
      → find p (save key a xs) ≡ none
  unfolding save
  find-save_only key p k a xs miss only first =
      rw (first, save) (replaced_only key p k a xs miss (filter-holds p xs only) only first)
