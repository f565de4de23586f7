-- ===== src/Rolling/Writes.antt =====
-- tracing-appender/src/rolling.rs: when a write refreshes the file, and the same for `make_writer`
-- where no other thread takes part.
use tracing.Prelude.{
  ℕ, ◌+◌, ◌<◌, ◌≤◌, ◌≡◌, ◌≢◌, refl, ap, ◌∙◌, true, false, List, Option, none, some, arith,
  Bool-cases, leb, ◌==◌, inl, inr, Option-cases, ◌⊎◌, leb→le,
}
use tracing.Prelude.Integer.{pos}
use tracing.Rolling.{
  Rotation, minutely, hourly, daily, weekly, Dates, never, and_then, date_format, round_date,
  end_of_dates,
}
use tracing.Rolling.Boundary.{period, phase, round_date_lem}
use tracing.Rolling.Rollover.{as_usize, should_rollover, advance_date, next_timestamp}
use tracing.Rolling.Race.{next_timestamp_lem}
use tracing.Rolling.Config.{Builder}
use tracing.Rolling.Files.{Disk}
use tracing.Rolling.Appender.{
  rounded_date, Appender, write, make_writer, refresh_writer, refreshed, rolled_over,
  rolled_over_if, join_date,
}

and_then_lem {ℓ κ} :
    {A : Type ℓ} {B : Type κ} {o : Option A} {a : A} (f : A → Option B)
    → o ≡ some a
    → and_then o f ≡ f a
and_then_lem f e = ap (λ o. and_then o f) e

not_both : {m n : ℕ} → m ≤ n → ¬ (n < m)
not_both h k = omega (arith, h, k)

not_leb : (m n : ℕ) → n < m → leb m n ≡ false
not_leb m n h = ground arith

lt_of_leb : (m n : ℕ) → leb m n ≡ false → n < m
lt_of_leb m n h = ground arith

zero_pos : (n : ℕ) → (n == 0) ≡ true → ¬ (0 < n)
zero_pos n e p = ground arith

not_early : (n m : ℕ) → (n == 0) ≡ false → n ≤ m → ¬ ((m < n) ⊎ (n ≡ 0))
not_early n m e h d = ground arith

module _ (ds : Dates) (disk : Disk ds) where
  open ds use {OffsetDateTime, unix_timestamp}

  -- What is due is the date that was read, so the exchange is made.
  should_rollover_same :
      (now : OffsetDateTime) (next : ℕ)
      → (should_rollover ds now next ≡ none) ⊎ (should_rollover ds now next ≡ some next)
  unfolding should_rollover
  should_rollover_same now next = elim (Bool-cases (next == 0)) [
    | inl e ↦ inl (rw e refl)
    | inr e ↦ elim (Bool-cases (leb next (as_usize (unix_timestamp now)))) [
      | inl f ↦ inr (rw (e, f) refl)
      | inr f ↦ inl (rw (e, f) refl)
    ]
  ]

  advance_date_same :
      (now : OffsetDateTime) (a : Appender ds disk)
      → rolled_over_if ds disk now a (some a.state.next_date)
        ≡ rolled_over ds disk now a (some a.state.next_date)
  unfolding advance_date
  advance_date_same now a = elim (Option-cases (next_timestamp ds a.state.config.rotation now)) [
    | inl e ↦ rw e refl
    | inr (n, e) ↦ rw (e, same a.state.next_date) refl
  ]
    where
      same : (n : ℕ) → (n == n) ≡ true
      same n = ground arith

  -- With no other thread, a write through `&mut self` is `make_writer`, and then the write of the
  -- `RollingWriter`: the exchange that `write` asserts to succeed does.
  pub write-make_writer :
      (now : OffsetDateTime) (buf : List ℕ) (a : Appender ds disk)
      → write ds disk now buf a
        ≡ and_then
            (make_writer ds disk now a)
            (λ b. let r = disk.write buf b.writer b.fs in some (r.0, record b { fs = r.1 }))
  unfolding write make_writer
  write-make_writer now buf a = elim (should_rollover_same now a.state.next_date) [
    | inl e ↦ rw (e) refl
    | inr e ↦ rw (e, advance_date_same now a) refl
  ]

  -- The crate's descriptions of formats fit every date.
  abbrev pub Formats : Type 0
  Formats =
      (r : Rotation) (d : OffsetDateTime)
      → (text : List ℕ) × (disk.format (date_format r) d ≡ some text)

  join_date_lem :
      (b : Builder) (now : OffsetDateTime) (t : ℕ)
      → Formats
      → b.rotation ≢ never
      → unix_timestamp now ≡ pos t
      → phase b.rotation ≤ t
      → (name : List ℕ) × (join_date ds disk b now ≡ some name)
  unfolding join_date
  join_date_lem b now t law n e h =
      let (d, f, g) = round_date_lem ds b.rotation now t n e h in
      let (text, k) = law b.rotation d in
      (_, and_then_lem _ (rounded_date_lem b.rotation n ∙ f) ∙ and_then_lem _ k)
    where
      rounded_date_lem :
          (r : Rotation) → r ≢ never → rounded_date ds disk r now ≡ round_date ds r now
      rounded_date_lem minutely n = refl
      rounded_date_lem hourly n = refl
      rounded_date_lem daily n = refl
      rounded_date_lem weekly n = refl
      rounded_date_lem never n = absurd (n refl)

  refresh_writer_lem :
      (b : Builder) (now : OffsetDateTime) (t : ℕ) (file : disk.File) (fs : disk.Fs)
      → Formats
      → b.rotation ≢ never
      → unix_timestamp now ≡ pos t
      → phase b.rotation ≤ t
      → (r : disk.File × disk.Fs) × (refresh_writer ds disk b now file fs ≡ some r)
  unfolding refresh_writer
  refresh_writer_lem b now t file fs law n e h =
      let (name, f) = join_date_lem b now t law n e h in (_, and_then_lem _ f)

  settled_lem :
      (now : OffsetDateTime) (n : ℕ)
      → as_usize (unix_timestamp now) < n
      → should_rollover ds now n ≡ none
  unfolding should_rollover
  settled_lem now n k = ground arith

  never_due : (now : OffsetDateTime) (n : ℕ) → (n == 0) ≡ true → should_rollover ds now n ≡ none
  unfolding should_rollover
  never_due now n e = rw e refl

  -- What a write comes to: the file that it goes to, and the date of the next rotation after it.
  pub record IsWritten (now : OffsetDateTime) (buf : List ℕ) (a : Appender ds disk) : Type 0 where
    pub file : disk.File
    pub fs : disk.Fs
    pub next : ℕ
    pub on_write :
        write ds disk now buf a
        ≡ some (
          (disk.write buf file fs).0,
          record a {
            state = record (a.state) { next_date = next };
            writer = file;
            fs = (disk.write buf file fs).1;
          },
        )
    pub settled : should_rollover ds now next ≡ none
    pub early :
        (as_usize (unix_timestamp now) < a.state.next_date) ⊎ (a.state.next_date ≡ 0)
        → (file ≡ a.writer) × (fs ≡ a.fs) × (next ≡ a.state.next_date)
    pub due :
        0 < a.state.next_date
        → a.state.next_date ≤ as_usize (unix_timestamp now)
        → refresh_writer ds disk a.state.config now a.writer a.fs ≡ some (file, fs)

  -- If the crate's formats fit every date: for a rotation other than `NEVER`, a write at a date
  -- between 1970 and the end of the year 9999, less an interval at each end, does not panic, and
  -- leaves no rollover due. If the next date is later than now, or is the 0 that stands for no
  -- rotation, the write goes to the file that is open, and the next date stays; if the next date is
  -- not 0 and not later than now, the write goes to what `refresh_writer` makes of the file.
  pub write-IsWritten :
      (now : OffsetDateTime) (buf : List ℕ) (a : Appender ds disk) (t : ℕ)
      → Formats
      → a.state.config.rotation ≢ never
      → unix_timestamp now ≡ pos t
      → phase a.state.config.rotation ≤ t
      → t + period a.state.config.rotation < end_of_dates
      → IsWritten now buf a
  unfolding write advance_date should_rollover refreshed
  write-IsWritten now buf a t law n e h l =
      let next = a.state.next_date in
      let unix = as_usize (unix_timestamp now) in
      let (r, f) = refresh_writer_lem a.state.config now t a.writer a.fs law n e h in
      let (later, g, k) = next_timestamp_lem ds a.state.config.rotation now n (t, e, l) in
      elim (Bool-cases (next == 0)) [
        | inl z ↦ record {
          file = a.writer;
          fs = a.fs;
          next = next;
          on_write = rw z refl;
          settled = never_due now next z;
          early = λ d. (refl, refl, refl);
          due = λ p d. absurd (zero_pos next z p);
        }
        | inr nz ↦ elim (Bool-cases (leb next unix)) [
          | inl c ↦ record {
            file = r.0;
            fs = r.1;
            next = later;
            on_write = rw (nz, c, g, same next, f) refl;
            settled = settled_lem now later k;
            early = λ d. absurd (not_early next unix nz (leb→le _ _ c) d);
            due = λ p d. f;
          }
          | inr c ↦ record {
            file = a.writer;
            fs = a.fs;
            next = next;
            on_write = rw (nz, c) refl;
            settled = settled_lem now next (lt_of_leb _ _ c);
            early = λ d. (refl, refl, refl);
            due = λ p d. absurd (not_both d (lt_of_leb _ _ c));
          }
        ]
      ]
    where
      same : (n : ℕ) → (n == n) ≡ true
      same n = ground arith
