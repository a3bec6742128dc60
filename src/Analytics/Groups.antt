-- ===== src/Analytics/Groups.antt =====
-- `GROUP BY` with `COUNT`: the rows that the database answers to the queries of
-- src/analytics/analytics.service.ts. A key is a status, compared by its position in the enumeration.
use subscription_billing_eng.Prelude.{
  ℕ, suc, ◌+◌, Bool, true, false, List, [], ◌∷◌, ◌||◌, ◌≡◌, refl, arith, ◌==◌, inl, inr, Bool-cases,
  length, if◌then◌else◌,
}

module _ {K : Type 0} (code : K → ℕ) where
  -- One more row of that key.
  unfoldable pub bump : K → List (K × ℕ) → List (K × ℕ)
  bump k [] = (k, 1) ∷ []
  bump k ((j, n) ∷ rest) = if code j == code k then (j, suc n) ∷ rest else (j, n) ∷ bump k rest

  -- The groups of a list of keys, with the number of each.
  unfoldable pub group_counts : List K → List (K × ℕ)
  unfolding bump
  group_counts [] = []
  group_counts (k ∷ ks) = bump k (group_counts ks)

  -- The count of a key, zero where it has no group.
  unfoldable pub count_in : K → List (K × ℕ) → ℕ
  count_in k [] = 0
  count_in k ((j, n) ∷ rest) = if code j == code k then n else count_in k rest

  unfoldable pub has_group : K → List (K × ℕ) → Bool
  has_group k [] = false
  has_group k ((j, n) ∷ rest) = code j == code k || has_group k rest

  -- The number of keys of that kind.
  unfoldable pub occurrences : K → List K → ℕ
  occurrences k [] = 0
  occurrences k (j ∷ js) = (if code j == code k then 1 else 0) + occurrences k js

  unfoldable pub sum_counts : List (K × ℕ) → ℕ
  sum_counts [] = 0
  sum_counts ((j, n) ∷ rest) = n + sum_counts rest

  -- Each key has one group.
  abbrev pub AreDistinct : List (K × ℕ) → Type 0
  AreDistinct [] = Unit
  AreDistinct ((k, n) ∷ rest) = (has_group k rest ≡ false) × AreDistinct rest

  count_in-bump :
      (k j : K) (gs : List (K × ℕ))
      → count_in k (bump j gs) ≡ (if code j == code k then 1 else 0) + count_in k gs
  unfolding bump count_in
  count_in-bump k j [] = ground arith
  count_in-bump k j ((i, n) ∷ rest) = ground (arith, count_in-bump k j rest)

  has_group-bump :
      (k j : K) (gs : List (K × ℕ)) → has_group k (bump j gs) ≡ (code j == code k || has_group k gs)
  unfolding bump has_group
  has_group-bump k j [] = ground arith
  has_group-bump k j ((i, n) ∷ rest) = ground (arith, has_group-bump k j rest)

  sum_counts-bump : (j : K) (gs : List (K × ℕ)) → sum_counts (bump j gs) ≡ suc (sum_counts gs)
  unfolding bump sum_counts
  sum_counts-bump j [] = refl
  sum_counts-bump j ((i, n) ∷ rest) = ground (arith, sum_counts-bump j rest)

  bump-AreDistinct : (j : K) (gs : List (K × ℕ)) → AreDistinct gs → AreDistinct (bump j gs)
  unfolding bump has_group
  bump-AreDistinct j [] h = (refl, tt)
  bump-AreDistinct j ((i, n) ∷ rest) (apart, h) = elim (Bool-cases (code i == code j)) [
    | inl hit ↦ rw (bump, hit) (apart, h)
    | inr miss ↦
        rw (bump, miss) (ground (arith, has_group-bump i j rest), bump-AreDistinct j rest h)
  ]

  -- Whether a key has a group depends on its code only.
  pub has_group-same_code :
      (j k : K) (gs : List (K × ℕ)) → (code j == code k) ≡ true → has_group j gs ≡ has_group k gs
  unfolding has_group
  has_group-same_code j k [] h = refl
  has_group-same_code j k ((i, n) ∷ rest) h = ground (arith, has_group-same_code j k rest h)

  -- A key without a group has the count zero.
  pub count_in-has_group :
      (k : K) (gs : List (K × ℕ)) → (if has_group k gs then count_in k gs else 0) ≡ count_in k gs
  unfolding has_group count_in
  count_in-has_group k [] = refl
  count_in-has_group k ((j, n) ∷ rest) = ground (arith, count_in-has_group k rest)

  pub group_counts-AreDistinct : (ks : List K) → AreDistinct (group_counts ks)
  unfolding group_counts
  group_counts-AreDistinct [] = tt
  group_counts-AreDistinct (k ∷ ks) =
      bump-AreDistinct k (group_counts ks) (group_counts-AreDistinct ks)

  pub count_in-group_counts :
      (k : K) (ks : List K) → count_in k (group_counts ks) ≡ occurrences k ks
  unfolding group_counts occurrences count_in
  count_in-group_counts k [] = refl
  count_in-group_counts k (j ∷ js) =
      ground (arith, count_in-bump k j (group_counts js), count_in-group_counts k js)

  pub sum_counts-group_counts : (ks : List K) → sum_counts (group_counts ks) ≡ length ks
  unfolding group_counts sum_counts
  sum_counts-group_counts [] = refl
  sum_counts-group_counts (k ∷ ks) =
      ground (arith, sum_counts-bump k (group_counts ks), sum_counts-group_counts ks)
