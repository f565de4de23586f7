-- ===== src/Rolling/Tests.antt =====
-- Dates as the seconds since 1970, and a directory of three files.
use tracing.Prelude.{
  ℕ, ◌+◌, ◌*◌, ◌-◌, ◌/◌, ◌%◌, ◌<◌, ◌≡◌, ◌≢◌, refl, ap, true, not, List, [], ◌∷◌, ◌++◌, Option, none,
  some, codes, arith, ltb, ◌&&◌, if◌then◌else◌, filter, length, ◌^◌,
}
use tracing.Prelude.Integer.{ℤ, pos, negsuc}
use tracing.Rolling.{
  Dates, end_of_dates, minutely, hourly, daily, weekly, never, round_date, next_date, rounded,
}
use tracing.Rolling.{date_format}
use tracing.Rolling.Rollover.{
  Phase, starting, Shared, turn, should_rollover, advance_date, next_timestamp,
}
use tracing.Rolling.Race.{run, IsDated, IsDue, Advances, run-Advances}
use tracing.Rolling.Config.{Builder, new, rotation, filename_prefix, filename_suffix, max_log_files}
use tracing.Rolling.Files.{
  DirEntry, Disk, candidates, candidate, read_candidate, matches, parse_date_from_filename,
  remove_files, too_old, prune_old_logs,
}
use tracing.Rolling.Appender.{Appender}
use tracing.Rolling.Pruned.{named, Removes, AreRemoved, IsPruned, prune_old_logs-IsPruned}
use tracing.Rolling.Writes.{Formats, IsWritten, write-IsWritten}
use tracing.Rolling.Boundary.{IsNext, next_date-IsNext}

abbrev day_time : ℕ → ℕ → ℕ → Option ℕ
day_time h m s = if ltb h 24 && (ltb m 60 && ltb s 60) then some (h * 3600 + m * 60 + s) else none

abbrev value : ℤ → ℕ
value (pos n) = n
value (negsuc n) = 0

some_value : Option ℕ → ℕ
some_value none = 0
some_value (some n) = n

same : (d t : ℕ) → pos (d % end_of_dates) ≡ pos t → d % end_of_dates ≡ t
same d t e = ap value e

day_time_lem : (h m s x : ℕ) → day_time h m s ≡ some x → (x ≡ h * 3600 + m * 60 + s) × (x < 86400)
day_time_lem h m s x e = ground arith

abbrev seconds : Dates
seconds = record {
  OffsetDateTime = ℕ;
  Time = ℕ;
  unix_timestamp = λ d. pos (d % end_of_dates);
  hour = λ d. d % end_of_dates / 3600 % 24;
  minute = λ d. d % end_of_dates / 60 % 60;
  number_days_from_sunday = λ d. (d % end_of_dates / 86400 + 4) % 7;
  from_hms = day_time;
  replace_time = λ x d. d % end_of_dates - d % end_of_dates % 86400 + x;
  add_seconds =
      λ d n. if ltb (d % end_of_dates + n) end_of_dates then some (d % end_of_dates + n) else none;
  subtract_seconds = λ d n. if ltb (d % end_of_dates) n then none else some (d % end_of_dates - n);
  unix_timestamp_limit = λ d t e. omega (arith, same d t e);
  hour_law = λ d t e. ap (λ t. t / 3600 % 24) (same d t e);
  minute_law = λ d t e. ap (λ t. t / 60 % 60) (same d t e);
  weekday_law = λ d t e. ap (λ t. (t / 86400 + 4) % 7) (same d t e);
  from_hms_law = λ h m s a b c. (h * 3600 + m * 60 + s, ground (arith, a, b, c));
  replace_time_law = λ h m s x d t e f. ap pos (omega (arith, same d t f, day_time_lem h m s x e));
  add_seconds_law = λ d t n e h. (t + n, ground (arith, same d t e, h), ap pos (omega (arith, h)));
  subtract_seconds_law =
      λ d t n e h. (t - n, ground (arith, same d t e, h), ap pos (omega (arith, same d t e, h)));
}

-- 2020-02-01 10:01:00, a Saturday
abbrev saturday : ℕ
saturday = 1580551260

abbrev after : Option (Option ℕ) → ℕ
after (some (some n)) = n
after _ = 0

-- 10:02:00, 11:00:00, and midnight of the Sunday
next_dates :
    (after (next_date seconds minutely saturday) ≡ 1580551320)
    × (after (next_date seconds hourly saturday) ≡ 1580554800)
    × (after (next_date seconds daily saturday) ≡ 1580601600)
    × (after (next_date seconds weekly saturday) ≡ 1580601600)
unfolding next_date rounded round_date
next_dates = (refl, refl, refl, refl)

weekly≢never : weekly ≢ never
weekly≢never = ground arith

next_date-IsNext_example :
    (e : ℕ) × (n : ℕ) × (next_date seconds weekly saturday ≡ some (some e))
    × (pos (e % end_of_dates) ≡ pos n)
    × IsNext seconds weekly saturday n
next_date-IsNext_example =
    next_date-IsNext seconds weekly saturday saturday weekly≢never refl (omega arith)

-- Three threads that saw the same due date: the one that exchanges first refreshes.
all_starting : ℕ → Phase seconds
all_starting i = starting

abbrev three_turns : List (ℕ × ℕ)
three_turns =
    (0, saturday)
    ∷ (1, saturday)
    ∷ (2, saturday)
    ∷ (1, saturday)
    ∷ (0, saturday)
    ∷ (2, saturday)
    ∷ (0, saturday)
    ∷ []

abbrev due_now : Shared seconds
due_now = record { next_date = 1580551200; won = [] }

won_once :
    ((run seconds minutely three_turns all_starting due_now).1.next_date ≡ 1580551320)
    × ((run seconds minutely three_turns all_starting due_now).1.won ≡ 1580551200 ∷ [])
unfolding run turn should_rollover advance_date next_timestamp next_date rounded round_date
    all_starting
won_once = (refl, refl)

minutely≢never : minutely ≢ never
minutely≢never = ground arith

dated : IsDated seconds minutely saturday
dated = (saturday, refl, omega arith)

all_starting-IsDue : (i : ℕ) → IsDue seconds minutely (all_starting i)
unfolding all_starting
all_starting-IsDue i = tt

run-Advances_example :
    Advances seconds minutely due_now (run seconds minutely three_turns all_starting due_now).1
run-Advances_example =
    run-Advances seconds minutely three_turns all_starting due_now minutely≢never
      (dated, (dated, (dated, (dated, (dated, (dated, (dated, tt))))))) all_starting-IsDue tt

-- A directory as the list of its files, where a file is known by its name.
abbrev entry_of : List ℕ → Option ℕ → DirEntry
entry_of name created = record {
  metadata = some (record { is_file = true; created = created });
  file_name = name;
  is_utf8 = true;
}

abbrev listing : Disk seconds
listing = record {
  Fs = List (Option DirEntry);
  File = List ℕ;
  read_dir = λ fs. some fs;
  remove_file = λ name fs. (true, filter (λ e. not (named name e)) fs);
  open_append = λ name fs. (some name, fs ++ (some (entry_of name (some 9)) ∷ []));
  create_dir_all = λ fs. (true, fs);
  remove_symlink_file = λ name fs. fs;
  symlink_file = λ path name fs. (true, fs);
  write = λ buf file fs. (some 1, fs);
  flush = λ file fs. fs;
  format = λ fmt date. some (codes "date");
  parse_date = λ text fmt. some 0;
  parse_date_time = λ text fmt. none;
}

listing-Removes : Removes seconds listing
listing-Removes name fs entries h e = ap (λ o. some (filter (λ x. not (named name x)) (listed o))) e
  where
    listed : Option (List (Option DirEntry)) → List (Option DirEntry)
    listed none = []
    listed (some es) = es

abbrev app : Builder
app =
    rotation minutely
      (filename_prefix (codes "app") (filename_suffix (codes "log") (max_log_files 2 new)))

-- The file without a time of creation is dated by its name.
abbrev directory : List (Option DirEntry)
directory =
    some (entry_of (codes "app.b.log") (some 5))
    ∷ none
    ∷ some (entry_of (codes "other.log") (some 1))
    ∷ some (entry_of (codes "app.a.log") none)
    ∷ some (entry_of (codes "app.c.log") (some 7))
    ∷ []

-- Two files make room for a new one.
pruned_directory :
    prune_old_logs seconds listing app 2 directory
    ≡ none
      ∷ some (entry_of (codes "other.log") (some 1))
      ∷ some (entry_of (codes "app.c.log") (some 7))
      ∷ []
unfolding prune_old_logs remove_files too_old candidates candidate read_candidate matches
    parse_date_from_filename date_format rotation filename_prefix filename_suffix max_log_files
pruned_directory = refl

directory_removed :
    (length (candidates seconds listing app directory) < 2 ^ 64)
    × AreRemoved seconds listing
        (too_old seconds listing 2 (candidates seconds listing app directory))
        directory
unfolding remove_files too_old candidates candidate read_candidate matches parse_date_from_filename
    date_format rotation filename_prefix filename_suffix max_log_files
directory_removed = (omega arith, (refl, (refl, tt)))

prune_old_logs-IsPruned_example :
    IsPruned seconds listing app 2 directory (prune_old_logs seconds listing app 2 directory)
prune_old_logs-IsPruned_example =
    prune_old_logs-IsPruned seconds listing app 2 directory directory listing-Removes (omega arith)
      refl directory_removed.0 directory_removed.1

abbrev appender : Appender seconds listing
appender = record {
  state = record { config = app; next_date = 1580551200 };
  writer = codes "app.c.log";
  fs = directory;
}

listing-Formats : Formats seconds listing
listing-Formats r d = (codes "date", refl)

write-IsWritten_example : IsWritten seconds listing saturday (codes "x") appender
unfolding rotation filename_prefix filename_suffix max_log_files
write-IsWritten_example =
    write-IsWritten seconds listing saturday (codes "x") appender saturday listing-Formats
      minutely≢never refl (omega arith) (omega arith)
