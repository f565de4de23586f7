-- ===== src/Rolling/Appender.antt =====
-- tracing-appender/src/rolling.rs: the files that are opened, and the writes to them. A panic is
-- `none`; what is printed to the standard error is left out.
use tracing.Prelude.{ℕ, Bool, true, false, List, Option, none, some, if◌then◌else◌}
use tracing.Prelude.Result.{Result, ok, err}
use tracing.Rolling.{Rotation, never, Dates, and_then, round_date, date_format}
use tracing.Rolling.Rollover.{next_timestamp, should_rollover, advance_date}
use tracing.Rolling.Config.{Builder, file_name}
use tracing.Rolling.Files.{Disk, prune_old_logs}

module _ (ds : Dates) (disk : Disk ds) where
  open ds use {OffsetDateTime}
  open disk use {Fs, File, format, parse_date, parse_date_time}

  -- `struct Inner` and `InitError`, with the builder's configuration
  pub record Inner : Type 0 where
    pub config : Builder
    pub next_date : ℕ

  pub data InitError : Type 0 where
    failed_to_create_directory failed_to_create_file failed_to_create_symlink : InitError

  -- `Inner::join_date`
  abbrev pub rounded_date : Rotation → OffsetDateTime → Option OffsetDateTime
  rounded_date never date = some date
  rounded_date r date = round_date ds r date

  unfoldable pub join_date : Builder → OffsetDateTime → Option (List ℕ)
  unfolding file_name round_date date_format
  join_date b date = and_then (rounded_date b.rotation date) (λ rounded.
      and_then (format (date_format b.rotation) rounded)
        (λ text. some (file_name b.rotation b.prefix b.suffix text)))

  -- `create_writer`
  abbrev with_symlink : Option (List ℕ) → List ℕ → File → Fs → Result InitError File × Fs
  with_symlink none path file fs = (ok file, fs)
  with_symlink (some name) path file fs =
      let r = disk.symlink_file path name (disk.remove_symlink_file name fs) in
      (if r.0 then ok file else err failed_to_create_symlink, r.1)

  abbrev opened_again : Option (List ℕ) → List ℕ → Option File × Fs → Result InitError File × Fs
  opened_again symlink path (none, fs) = (err failed_to_create_file, fs)
  opened_again symlink path (some file, fs) = with_symlink symlink path file fs

  abbrev with_directory : Option (List ℕ) → List ℕ → Bool × Fs → Result InitError File × Fs
  with_directory symlink path (false, fs) = (err failed_to_create_directory, fs)
  with_directory symlink path (true, fs) = opened_again symlink path (disk.open_append path fs)

  abbrev opened : Option (List ℕ) → List ℕ → Option File × Fs → Result InitError File × Fs
  opened symlink path (none, fs) = with_directory symlink path (disk.create_dir_all fs)
  opened symlink path (some file, fs) = with_symlink symlink path file fs

  unfoldable pub create_writer : List ℕ → Option (List ℕ) → Fs → Result InitError File × Fs
  create_writer filename symlink fs = opened symlink filename (disk.open_append filename fs)

  abbrev pruned : Builder → Option ℕ → Fs → Fs
  pruned b none fs = fs
  pruned b (some max_files) fs = prune_old_logs ds disk b max_files fs

  -- `Inner::refresh_writer`
  abbrev replaced : File → Result InitError File × Fs → File × Fs
  replaced file (ok new_file, fs) = (new_file, disk.flush file fs)
  replaced file (err why, fs) = (file, fs)

  unfoldable pub refresh_writer : Builder → OffsetDateTime → File → Fs → Option (File × Fs)
  unfolding join_date prune_old_logs create_writer
  refresh_writer b now file fs = and_then (join_date b now) (λ filename.
      some (replaced file (create_writer filename b.latest_symlink (pruned b b.max_files fs))))

  -- `RollingFileAppender`, with the file system
  pub record Appender : Type 0 where
    pub state : Inner
    pub writer : File
    pub fs : Fs

  abbrev created : Inner → Result InitError File × Fs → Result InitError Appender × Fs
  created state (ok file, fs) = (ok (record { state = state; writer = file; fs = fs }), fs)
  created state (err why, fs) = (err why, fs)

  -- `Inner::new`, by `RollingFileAppender::from_builder`
  unfoldable pub from_builder :
      Builder → OffsetDateTime → Fs → Option (Result InitError Appender × Fs)
  unfolding next_timestamp join_date prune_old_logs create_writer
  from_builder b now fs = and_then (next_timestamp ds b.rotation now) (λ next.
      and_then (join_date b now) (λ filename. some (
        created (record { config = b; next_date = next })
          (create_writer filename b.latest_symlink (pruned b b.max_files fs)))))

  -- The body of `if let Some(current_time)`: with `&mut self`, and in `make_writer` if the exchange was made
  abbrev pub advanced : Appender → Bool × ℕ → Appender
  advanced a r = record a { state = record (a.state) { next_date = r.1 } }

  unfoldable pub refreshed : OffsetDateTime → Appender → Option Appender
  unfolding refresh_writer
  refreshed now a =
      and_then (refresh_writer a.state.config now a.writer a.fs)
        (λ r. some (record a { writer = r.0; fs = r.1 }))

  abbrev pub rolled_over : OffsetDateTime → Appender → Option ℕ → Option Appender
  rolled_over now a none = some a
  rolled_over now a (some current_time) =
      and_then (advance_date ds a.state.config.rotation now current_time a.state.next_date)
        (λ r. refreshed now (advanced a r))

  -- `Write::write` of `RollingFileAppender`
  unfoldable pub write : OffsetDateTime → List ℕ → Appender → Option (Option ℕ × Appender)
  unfolding should_rollover advance_date refresh_writer
  write now buf a =
      and_then (rolled_over now a (should_rollover ds now a.state.next_date))
        (λ b. let r = disk.write buf b.writer b.fs in some (r.0, record b { fs = r.1 }))

  -- `make_writer`, of one thread
  abbrev pub rolled_over_if : OffsetDateTime → Appender → Option ℕ → Option Appender
  rolled_over_if now a none = some a
  rolled_over_if now a (some current_time) =
      and_then (advance_date ds a.state.config.rotation now current_time a.state.next_date)
        (λ r. if r.0 then refreshed now (advanced a r) else some (advanced a r))

  unfoldable pub make_writer : OffsetDateTime → Appender → Option Appender
  unfolding should_rollover advance_date refresh_writer
  make_writer now a = rolled_over_if now a (should_rollover ds now a.state.next_date)
