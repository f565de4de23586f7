-- ===== src/Rolling/Boundary.antt =====
-- The date that `next_date` computes is the next boundary of the rotation.
use tracing.Prelude.{ℕ, ◌+◌, ◌*◌, ◌-◌, ◌%◌, ◌<◌, ◌≤◌, ◌≡◌, ◌≢◌, refl, ap, ◌∙◌, some, arith}
use tracing.Prelude.Integer.{pos}
use tracing.Rolling.{
  Rotation, minutely, hourly, daily, weekly, never, Dates, end_of_dates, at_time, round_date,
  rounded, next_date,
}

-- The length of an interval in seconds.
abbrev pub period : Rotation → ℕ
period minutely = 60
period hourly = 3600
period daily = 86400
period weekly = 604800
period never = 0

-- The first day of 1970 was a Thursday, four days after a Sunday.
abbrev pub phase : Rotation → ℕ
phase weekly = 345600
phase _ = 0

-- The seconds since the last boundary.
abbrev pub past : Rotation → ℕ → ℕ
past minutely t = t % 60
past hourly t = t % 3600
past daily t = t % 86400
past weekly t = (t + 345600) % 604800
past never t = 0

module _ (ds : Dates) where
  open ds use {OffsetDateTime, unix_timestamp}

  at_time_lem :
      (h m : ℕ) (d : OffsetDateTime) (t : ℕ)
      → h < 24
      → m < 60
      → unix_timestamp d ≡ pos t
      → (e : OffsetDateTime) × (at_time ds h m d ≡ some e)
        × (unix_timestamp e ≡ pos (t - t % 86400 + (h * 3600 + m * 60)))
  at_time_lem h m d t hb mb e =
      let (x, f) = ds.from_hms_law h m 0 hb mb (omega arith) in
      (ds.replace_time x d, rw f, ds.replace_time_law h m 0 x d t f e ∙ ap pos (omega arith))

  pub round_date_lem :
      (r : Rotation) (d : OffsetDateTime) (t : ℕ)
      → r ≢ never
      → unix_timestamp d ≡ pos t
      → phase r ≤ t
      → (e : OffsetDateTime) × (round_date ds r d ≡ some e)
        × (unix_timestamp e ≡ pos (t - past r t))
  unfolding round_date
  round_date_lem minutely d t n e h =
      let eh = ds.hour_law d t e in
      let em = ds.minute_law d t e in
      let (x, f, g) =
        at_time_lem (ds.hour d) (ds.minute d) d t (omega (arith, eh)) (omega (arith, em)) e in
      (x, f, g ∙ ap pos (omega (arith, eh, em)))
  round_date_lem hourly d t n e h =
      let eh = ds.hour_law d t e in
      let (x, f, g) = at_time_lem (ds.hour d) 0 d t (omega (arith, eh)) (omega arith) e in
      (x, f, g ∙ ap pos (omega (arith, eh)))
  round_date_lem daily d t n e h =
      let (x, f, g) = at_time_lem 0 0 d t (omega arith) (omega arith) e in
      (x, f, g ∙ ap pos (omega arith))
  round_date_lem weekly d t n e h =
      let ew = ds.weekday_law d t e in
      let (y, k, l) =
        ds.subtract_seconds_law d t (ds.number_days_from_sunday d * 86400) e (omega (arith, ew)) in
      let (x, f, g) = at_time_lem 0 0 y _ (omega arith) (omega arith) l in
      (x, rw k f, g ∙ ap pos (omega (arith, ew)))
  round_date_lem never d t n e h = absurd (n refl)

  -- `n` is the first boundary after `t`.
  pub record IsNext (r : Rotation) (t n : ℕ) : Type 0 where
    pub on_boundary : past r n ≡ 0
    pub later : t < n
    pub soon : n ≤ t + period r
    pub first : (u : ℕ) → t < u → u < n → past r u ≢ 0

  first_boundary :
      (r : Rotation) (t : ℕ) → r ≢ never → IsNext r t (t + period r - past r (t + period r))
  first_boundary minutely t n = record {
    on_boundary = omega arith;
    later = omega arith;
    soon = omega arith;
    first = λ u h k e. omega (arith, h, k, e);
  }
  first_boundary hourly t n = record {
    on_boundary = omega arith;
    later = omega arith;
    soon = omega arith;
    first = λ u h k e. omega (arith, h, k, e);
  }
  first_boundary daily t n = record {
    on_boundary = omega arith;
    later = omega arith;
    soon = omega arith;
    first = λ u h k e. omega (arith, h, k, e);
  }
  first_boundary weekly t n = record {
    on_boundary = omega arith;
    later = omega arith;
    soon = omega arith;
    first = λ u h k e. omega (arith, h, k, e);
  }
  first_boundary never t n = absurd (n refl)

  rounded_lem :
      (r : Rotation) (d : OffsetDateTime) (t : ℕ)
      → r ≢ never
      → unix_timestamp d ≡ pos t
      → t + period r < end_of_dates
      → (e : OffsetDateTime) × (rounded ds r (ds.add_seconds d (period r)) ≡ some (some e))
        × (unix_timestamp e ≡ pos (t + period r - past r (t + period r)))
  unfolding rounded
  rounded_lem r d t n e h =
      let (x, f, g) = ds.add_seconds_law d t (period r) e h in
      let (y, k, l) = round_date_lem r x (t + period r) n g (phase_le r n) in
      (y, rw (f, rounded, k), l)
    where
      phase_le : (r : Rotation) → r ≢ never → phase r ≤ t + period r
      phase_le minutely n = omega arith
      phase_le hourly n = omega arith
      phase_le daily n = omega arith
      phase_le weekly n = omega arith
      phase_le never n = absurd (n refl)

  next_date_rounded :
      (r : Rotation) (d : OffsetDateTime)
      → r ≢ never
      → next_date ds r d ≡ rounded ds r (ds.add_seconds d (period r))
  unfolding next_date
  next_date_rounded minutely d n = refl
  next_date_rounded hourly d n = refl
  next_date_rounded daily d n = refl
  next_date_rounded weekly d n = refl
  next_date_rounded never d n = absurd (n refl)

  -- For a date since 1970 that is not within one interval of the end of the year 9999, `next_date`
  -- does not panic, and gives the first boundary of the rotation after the date: the first full
  -- minute, hour, day or Sunday.
  pub next_date-IsNext :
      (r : Rotation) (d : OffsetDateTime) (t : ℕ)
      → r ≢ never
      → unix_timestamp d ≡ pos t
      → t + period r < end_of_dates
      → (e : OffsetDateTime) × (n : ℕ) × (next_date ds r d ≡ some (some e))
        × (unix_timestamp e ≡ pos n)
        × IsNext r t n
  next_date-IsNext r d t n e h =
      let (x, f, g) = rounded_lem r d t n e h in
      (x, _, next_date_rounded r d n ∙ f, g, first_boundary r t n)
