-- ===== src/Analytics/Rows.antt =====
-- The loops of src/analytics/analytics.service.ts over the rows of a grouped query, where each row sets
-- the field of its key.
use subscription_billing_eng.Prelude.{
  ℕ, ◌+◌, List, [], ◌∷◌, ◌≡◌, refl, arith, ◌==◌, inl, inr, Bool-cases, length, if◌then◌else◌,
}
use subscription_billing_eng.Analytics.Groups.{
  group_counts, count_in, has_group, occurrences, sum_counts, AreDistinct, group_counts-AreDistinct,
  count_in-group_counts, sum_counts-group_counts, has_group-same_code, count_in-has_group,
}

module _ {K : Type 0} {C : Type 0} (put : K → ℕ → C → C) where
  -- `for (const row of rows)`.
  unfoldable pub read_rows : List (K × ℕ) → C → C
  read_rows [] c = c
  read_rows ((k, n) ∷ rest) c = read_rows rest (put k n c)

  module _ (code : K → ℕ) (get : C → ℕ) (s : K) where
    read_rows-field :
        ((k : K) (n : ℕ) (c : C) → get (put k n c) ≡ (if code k == code s then n else get c))
        → (gs : List (K × ℕ)) (c : C) → AreDistinct code gs
        → get (read_rows gs c) ≡ (if has_group code s gs then count_in code s gs else get c)
    unfolding read_rows has_group count_in
    read_rows-field law [] c h = refl
    read_rows-field law ((k, n) ∷ rest) c (apart, h) = elim (Bool-cases (code k == code s)) [
      | inl hit ↦ ground (
        arith,
        read_rows-field law rest (put k n c) h,
        law k n c,
        has_group-same_code code k s rest hit,
      )
      | inr miss ↦ ground (arith, read_rows-field law rest (put k n c) h, law k n c)
    ]

    -- The field that the rows of one key set holds the number of its occurrences.
    pub read_rows-occurrences :
        ((k : K) (n : ℕ) (c : C) → get (put k n c) ≡ (if code k == code s then n else get c))
        → (ks : List K) (c : C) → get c ≡ 0
        → get (read_rows (group_counts code ks) c) ≡ occurrences code s ks
    read_rows-occurrences law ks c start = ground (
      arith,
      read_rows-field law (group_counts code ks) c (group_counts-AreDistinct code ks),
      count_in-has_group code s (group_counts code ks),
      count_in-group_counts code s ks,
    )

  -- The field that every row raises holds the number of all of them.
  pub read_rows-sum :
      (code : K → ℕ) (get : C → ℕ)
      → ((k : K) (n : ℕ) (c : C) → get (put k n c) ≡ get c + n)
      → (gs : List (K × ℕ)) (c : C) → get (read_rows gs c) ≡ get c + sum_counts code gs
  unfolding read_rows sum_counts
  read_rows-sum code get law [] c = omega arith
  read_rows-sum code get law ((k, n) ∷ rest) c =
      omega (arith, read_rows-sum code get law rest (put k n c), law k n c)

  pub read_rows-length :
      (code : K → ℕ) (get : C → ℕ)
      → ((k : K) (n : ℕ) (c : C) → get (put k n c) ≡ get c + n)
      → (ks : List K) (c : C) → get c ≡ 0
      → get (read_rows (group_counts code ks) c) ≡ length ks
  read_rows-length code get law ks c start = omega (
    arith,
    read_rows-sum code get law (group_counts code ks) c,
    sum_counts-group_counts code ks,
    start,
  )
