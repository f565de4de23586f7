-- ===== src/Rolling/Rollover.antt =====
-- tracing-appender/src/rolling.rs: the date of the next rotation, which the threads that share an
-- appender change by `compare_exchange`. A file's refresh is a turn of its own; what a thread does
-- after a panic is not followed.
use tracing.Prelude.{
  ℕ, ◌-◌, ◌%◌, ◌^◌, Bool, true, false, List, ◌∷◌, Option, none, some, leb, ◌==◌, if◌then◌else◌,
}
use tracing.Prelude.Integer.{ℤ, pos, negsuc}
use tracing.Rolling.{Rotation, Dates, and_then, next_date}

-- `as usize` of an `i64`
abbrev pub as_usize : ℤ → ℕ
as_usize (pos n) = n % 2 ^ 64
as_usize (negsuc n) = 2 ^ 64 - 1 - n % 2 ^ 64

module _ (ds : Dates) where
  open ds use {OffsetDateTime, unix_timestamp}

  abbrev timestamp_or_zero : Option OffsetDateTime → ℕ
  timestamp_or_zero none = 0
  timestamp_or_zero (some date) = as_usize (unix_timestamp date)

  -- `.map(|date| date.unix_timestamp() as usize).unwrap_or(0)`
  unfoldable pub next_timestamp : Rotation → OffsetDateTime → Option ℕ
  next_timestamp r now = and_then (next_date ds r now) (λ date. some (timestamp_or_zero date))

  -- `Inner::should_rollover`, of the value that it loads
  unfoldable pub should_rollover : OffsetDateTime → ℕ → Option ℕ
  should_rollover date next_date =
      if next_date == 0
      then none
      else (if leb next_date (as_usize (unix_timestamp date)) then some next_date else none)

  -- `Inner::advance_date`: whether the exchange was made, and the next date after it
  unfoldable pub advance_date : Rotation → OffsetDateTime → ℕ → ℕ → Option (Bool × ℕ)
  unfolding next_timestamp
  advance_date r now current next_date =
      and_then (next_timestamp r now)
        (λ next. some (if next_date == current then (true, next) else (false, next_date)))

  -- A thread in `make_writer`: before it loads the next date, before the exchange, before
  -- `refresh_writer`, and with its `RollingWriter`.
  pub data Phase : Type 0 where
    starting : Phase
    exchanging : OffsetDateTime → ℕ → Phase
    refreshing : OffsetDateTime → Phase
    writing panicked : Phase

  -- The shared date, and the values that a thread has exchanged, the last first.
  pub record Shared : Type 0 where
    pub next_date : ℕ
    pub won : List ℕ

  abbrev pub loaded : OffsetDateTime → Option ℕ → Phase
  loaded now none = writing
  loaded now (some current) = exchanging now current

  abbrev pub exchanged : OffsetDateTime → ℕ → Shared → Option (Bool × ℕ) → Phase × Shared
  exchanged now current s none = (panicked, s)
  exchanged now current s (some (true, next)) =
      (refreshing now, record { next_date = next; won = current ∷ s.won })
  exchanged now current s (some (false, next)) = (writing, s)

  -- One turn of a thread in `make_writer`, with `now` what it reads from the clock at its start.
  unfoldable pub turn : Rotation → OffsetDateTime → Phase → Shared → Phase × Shared
  unfolding should_rollover advance_date
  turn r now starting s = (loaded now (should_rollover now s.next_date), s)
  turn r now (exchanging t current) s = exchanged t current s (advance_date r t current s.next_date)
  turn r now (refreshing t) s = (writing, s)
  turn r now writing s = (starting, s)
  turn r now panicked s = (panicked, s)
