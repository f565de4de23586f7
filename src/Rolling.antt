-- ===== src/Rolling.antt =====
-- tracing-appender/src/rolling.rs and rolling/builder.rs: the intervals of rotation, and the date at
-- which the next file is due. The crate `time` is a parameter; what panics is `none`.
pub mod Boundary
pub mod Rollover
pub mod Race
pub mod Config
pub mod Files
pub mod Appender
pub mod Sorted
pub mod Affix
pub mod Owned
pub mod TooOld
pub mod Pruned
pub mod Writes
mod Tests
use tracing.Prelude.{ℕ, ◌+◌, ◌*◌, ◌-◌, ◌/◌, ◌%◌, ◌<◌, ◌≤◌, ◌≡◌, List, Option, none, some, codes}
use tracing.Prelude.Integer.{ℤ, pos}

-- `struct Rotation` and `enum RotationKind`
pub data Rotation : Type 0 where
  minutely hourly daily weekly never : Rotation

-- One second after 9999-12-31 23:59:59, the last date that the crate `time` can hold.
abbrev pub end_of_dates : ℕ
end_of_dates = 253402300800

-- What is used of the crate `time`, with what its documentation says of the dates in UTC since 1970.
pub record Dates : Type 1 where
  pub OffsetDateTime : Type 0
  pub Time : Type 0
  pub unix_timestamp : OffsetDateTime → ℤ
  pub hour : OffsetDateTime → ℕ
  pub minute : OffsetDateTime → ℕ
  pub number_days_from_sunday : OffsetDateTime → ℕ
  pub from_hms : ℕ → ℕ → ℕ → Option Time
  pub replace_time : Time → OffsetDateTime → OffsetDateTime
  pub add_seconds : OffsetDateTime → ℕ → Option OffsetDateTime
  pub subtract_seconds : OffsetDateTime → ℕ → Option OffsetDateTime
  pub unix_timestamp_limit :
      (d : OffsetDateTime) (t : ℕ) → unix_timestamp d ≡ pos t → t < end_of_dates
  pub hour_law : (d : OffsetDateTime) (t : ℕ) → unix_timestamp d ≡ pos t → hour d ≡ t / 3600 % 24
  pub minute_law : (d : OffsetDateTime) (t : ℕ) → unix_timestamp d ≡ pos t → minute d ≡ t / 60 % 60
  pub weekday_law :
      (d : OffsetDateTime) (t : ℕ)
      → unix_timestamp d ≡ pos t
      → number_days_from_sunday d ≡ (t / 86400 + 4) % 7
  pub from_hms_law : (h m s : ℕ) → h < 24 → m < 60 → s < 60 → (x : Time) × (from_hms h m s ≡ some x)
  pub replace_time_law :
      (h m s : ℕ) (x : Time) (d : OffsetDateTime) (t : ℕ)
      → from_hms h m s ≡ some x
      → unix_timestamp d ≡ pos t
      → unix_timestamp (replace_time x d) ≡ pos (t - t % 86400 + (h * 3600 + m * 60 + s))
  pub add_seconds_law :
      (d : OffsetDateTime) (t n : ℕ)
      → unix_timestamp d ≡ pos t
      → t + n < end_of_dates
      → (e : OffsetDateTime) × (add_seconds d n ≡ some e) × (unix_timestamp e ≡ pos (t + n))
  pub subtract_seconds_law :
      (d : OffsetDateTime) (t n : ℕ)
      → unix_timestamp d ≡ pos t
      → n ≤ t
      → (e : OffsetDateTime) × (subtract_seconds d n ≡ some e) × (unix_timestamp e ≡ pos (t - n))

abbrev pub and_then {ℓ κ} : {A : Type ℓ} {B : Type κ} → Option A → (A → Option B) → Option B
and_then none f = none
and_then (some a) f = f a

-- `Rotation::date_format`: the description of the format
unfoldable pub date_format : Rotation → List ℕ
date_format minutely = codes "[year]-[month]-[day]-[hour]-[minute]"
date_format hourly = codes "[year]-[month]-[day]-[hour]"
date_format daily = codes "[year]-[month]-[day]"
date_format weekly = codes "[year]-[month]-[day]"
date_format never = codes "[year]-[month]-[day]"

module _ (ds : Dates) where
  open ds use {
    OffsetDateTime, hour, minute, number_days_from_sunday, from_hms, replace_time, add_seconds,
    subtract_seconds,
  }

  -- `Time::from_hms(..).expect(..)` and `replace_time`
  abbrev pub at_time : ℕ → ℕ → OffsetDateTime → Option OffsetDateTime
  at_time h m date = and_then (from_hms h m 0) (λ time. some (replace_time time date))

  -- `Rotation::round_date`
  unfoldable pub round_date : Rotation → OffsetDateTime → Option OffsetDateTime
  round_date minutely date = at_time (hour date) (minute date) date
  round_date hourly date = at_time (hour date) 0 date
  round_date daily date = at_time 0 0 date
  round_date weekly date =
      and_then (subtract_seconds date (number_days_from_sunday date * 86400)) (at_time 0 0)
  round_date never date = none

  unfoldable pub rounded : Rotation → Option OffsetDateTime → Option (Option OffsetDateTime)
  unfolding round_date
  rounded r unrounded_next_date =
      and_then unrounded_next_date (λ date. and_then (round_date r date) (λ next. some (some next)))

  -- `Rotation::next_date`
  unfoldable pub next_date : Rotation → OffsetDateTime → Option (Option OffsetDateTime)
  unfolding rounded
  next_date minutely date = rounded minutely (add_seconds date 60)
  next_date hourly date = rounded hourly (add_seconds date 3600)
  next_date daily date = rounded daily (add_seconds date 86400)
  next_date weekly date = rounded weekly (add_seconds date 604800)
  next_date never date = some none
