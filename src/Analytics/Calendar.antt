-- ===== src/Analytics/Calendar.antt =====
-- The dates of src/analytics/analytics.util.ts. A date key is the day that it names, counted from
-- 1 January 1970; a month is counted from January 1970. The zone of the server is UTC.
use subscription_billing_eng.Prelude.{
  ℕ, zero, suc, ◌+◌, ◌-◌, ◌*◌, ◌/◌, ◌%◌, ◌&&◌, ◌||◌, not, Bool, Option, none, some, List, [], ◌∷◌,
  ◌==◌, ltb, leb, if◌then◌else◌,
}
use subscription_billing_eng.Analytics.Util.{days_ago}

pub data TrendGranularity : Type 0 where
  day week month : TrendGranularity

abbrev pub day_ms : ℕ
day_ms = 86400000

-- `Date`: the days of a month.
unfoldable pub is_leap : ℕ → Bool
is_leap year = year % 4 == 0 && (not (year % 100 == 0) || year % 400 == 0)

unfoldable pub month_length : ℕ → ℕ
unfolding is_leap
month_length k =
    let m = k % 12 in
    if m == 1
    then (if is_leap (1970 + k / 12) then 29 else 28)
    else if m == 3 || m == 5 || m == 8 || m == 10
    then 30
    else 31

-- The first day of a month.
unfoldable pub month_start : ℕ → ℕ
unfolding month_length
month_start zero = 0
month_start (suc k) = month_start k + month_length k

-- The month, from `k` on, in which the day lies that comes so many days after the start of `k`. The
-- fuel is more than the number of days, and every month has one.
unfoldable pub locate_month : ℕ → ℕ → ℕ → ℕ
unfolding month_length
locate_month zero k rest = k
locate_month (suc fuel) k rest =
    let later = locate_month fuel (suc k) (rest - month_length k) in
    if ltb rest (month_length k) then k else later

unfoldable pub month_of : ℕ → ℕ
unfolding locate_month
month_of d = locate_month (suc d) 0 d

-- `truncateDate`: 1 January 1970 was a Thursday, and a week starts on Sunday.
unfoldable pub truncate_date : ℕ → TrendGranularity → ℕ
unfolding month_start month_of
truncate_date d TrendGranularity.day = d
truncate_date d TrendGranularity.week = d - (d + 4) % 7
truncate_date d TrendGranularity.month = month_start (month_of d)

-- The step of the cursor: `setUTCMonth` keeps the day of the month, and what the month does not have
-- runs over into the next.
unfoldable pub next_cursor : TrendGranularity → ℕ → ℕ
unfolding month_start month_of
next_cursor TrendGranularity.day d = d + 1
next_cursor TrendGranularity.week d = d + 7
next_cursor TrendGranularity.month d =
    month_start (suc (month_of d)) + (d - month_start (month_of d))

-- The loop of `generateDateBuckets`.
unfoldable pub bucket_loop : ℕ → TrendGranularity → ℕ → ℕ → List ℕ
unfolding truncate_date next_cursor
bucket_loop zero g cursor to = []
bucket_loop (suc fuel) g cursor to =
    let rest = bucket_loop fuel g (next_cursor g cursor) to in
    if leb (cursor * day_ms) to then truncate_date cursor g ∷ rest else []

-- `generateDateBuckets`, from the midnight of the first day.
unfoldable pub generate_date_buckets : ℕ → ℕ → TrendGranularity → List ℕ
unfolding bucket_loop
generate_date_buckets from to g = bucket_loop (suc (suc (to / day_ms))) g (from / day_ms) to

pub record TrendRange : Type 0 where
  pub from : ℕ
  pub to : ℕ

-- `defaultTrendRange`.
unfoldable pub default_trend_range : ℕ → TrendRange
default_trend_range now = record {
  from = (days_ago 30 now / day_ms) * day_ms;
  to = (now / day_ms) * day_ms + (day_ms - 1);
}

-- `resolveDateRange`, of texts that are read already: `none` is absent, `some none` no date.
unfoldable pub resolve_date_range : Option (Option ℕ) → Option (Option ℕ) → ℕ → TrendRange
unfolding default_trend_range
resolve_date_range from to now =
    let defaults = default_trend_range now in
    let resolved_from : Option ℕ = elim from [ none ↦ some defaults.from | some t ↦ t ] in
    let resolved_to : Option ℕ = elim to [ none ↦ some defaults.to | some t ↦ t ] in
    elim resolved_from [
      | none ↦ defaults
      | some f ↦ elim resolved_to [
        | none ↦ defaults
        | some t ↦ if ltb t f then record { from = t; to = f } else record { from = f; to = t }
      ]
    ]
