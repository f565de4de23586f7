-- ===== src/Rolling/Race.antt =====
-- Threads that race for a rotation: of those that saw the same date, one refreshes the file.
use tracing.Prelude.{
  ℕ, ◌+◌, ◌<◌, ◌≤◌, ◌≡◌, ◌≢◌, ap, true, List, [], ◌∷◌, some, ◌==◌, if◌then◌else◌, arith, Bool-cases,
  inl, inr, subst, All,
}
use tracing.Prelude.Integer.{pos}
use tracing.Rolling.{Rotation, never, Dates, end_of_dates}
use tracing.Rolling.Boundary.{period, next_date-IsNext}
use tracing.Rolling.Rollover.{
  as_usize, next_timestamp, should_rollover, advance_date, Phase, starting, exchanging, refreshing,
  writing, panicked, Shared, turn, loaded, exchanged,
}

-- The values are in descending order, and less than `b`.
abbrev pub IsBelow : ℕ → List ℕ → Type 0
IsBelow b [] = Unit {0}
IsBelow b (w ∷ ws) = (w < b) × IsBelow w ws

module _ (ds : Dates) (r : Rotation) where
  open ds use {OffsetDateTime, unix_timestamp}

  -- Since 1970, and not within one interval of the end of the dates.
  abbrev pub IsDated : OffsetDateTime → Type 0
  IsDated now = (t : ℕ) × (unix_timestamp now ≡ pos t) × (t + period r < end_of_dates)

  -- The phases of the threads.
  abbrev pub Threads : Type 0
  Threads = ℕ → Phase ds

  abbrev pub set : ℕ → Phase ds → Threads → Threads
  set i p threads j = if i == j then p else threads j

  -- The turns in their order: the thread, and what its clock shows.
  unfoldable pub run : List (ℕ × OffsetDateTime) → Threads → Shared ds → Threads × Shared ds
  unfolding turn
  run [] threads s = (threads, s)
  run ((i, now) ∷ turns) threads s =
      let (p, s') = turn ds r now (threads i) s in run turns (set i p threads) s'

  -- What a thread that is to exchange has seen: a date that is due.
  abbrev pub IsDue : Phase ds → Type 0
  IsDue (exchanging now current) = IsDated now × (current ≤ as_usize (unix_timestamp now))
  IsDue _ = Unit {0}

  -- The dates that were exchanged so far, and those that a turn or several turns add.
  pub record Advances (s t : Shared ds) : Type 0 where
    pub forward : s.next_date ≤ t.next_date
    pub once : IsBelow t.next_date t.won

  pub next_timestamp_lem :
      (now : OffsetDateTime)
      → r ≢ never
      → IsDated now
      → (n : ℕ) × (next_timestamp ds r now ≡ some n) × (as_usize (unix_timestamp now) < n)
  unfolding next_timestamp
  next_timestamp_lem now h (t, e, b) =
      let (x, n, f, g, k) = next_date-IsNext ds r now t h e b in
      let lim = ds.unix_timestamp_limit x n g in
      (n, rw (f, g) (ap some (omega (arith, lim))), rw e (omega (arith, k.later, b)))

  should_rollover_lem :
      (now : OffsetDateTime) (next : ℕ)
      → IsDated now
      → IsDue (loaded ds now (should_rollover ds now next))
  unfolding should_rollover
  should_rollover_lem now next d = ground arith

  advance_lem :
      (now : OffsetDateTime) (current : ℕ) (s : Shared ds)
      → r ≢ never
      → IsDated now
      → current ≤ as_usize (unix_timestamp now)
      → IsBelow s.next_date s.won
      → let after = exchanged ds now current s (advance_date ds r now current s.next_date) in
        Advances s after.1 × IsDue after.0
  unfolding advance_date
  advance_lem now current s h d c b =
      let (n, f, k) = next_timestamp_lem now h d in
      elim (Bool-cases (s.next_date == current)) [
        | inl e ↦
            rw (f, e)
              (
                record {
                  forward = omega (arith, same e, c, k);
                  once = (omega (arith, c, k), subst (λ m. IsBelow m s.won) (same e) b);
                },
                tt,
              )
        | inr e ↦ rw (f, e) (record { forward = omega arith; once = b }, tt)
      ]
    where
      same : (s.next_date == current) ≡ true → s.next_date ≡ current
      same e = ground arith

  turn-Advances :
      (now : OffsetDateTime) (p : Phase ds) (s : Shared ds)
      → r ≢ never
      → IsDated now
      → IsDue p
      → IsBelow s.next_date s.won
      → let after = turn ds r now p s in Advances s after.1 × IsDue after.0
  unfolding turn
  turn-Advances now starting s h d q b =
      (record { forward = omega arith; once = b }, should_rollover_lem now s.next_date d)
  turn-Advances now (exchanging t current) s h d q b = advance_lem t current s h q.0 q.1 b
  turn-Advances now (refreshing t) s h d q b = (record { forward = omega arith; once = b }, tt)
  turn-Advances now writing s h d q b = (record { forward = omega arith; once = b }, tt)
  turn-Advances now panicked s h d q b = (record { forward = omega arith; once = b }, tt)

  set-IsDue :
      (i : ℕ) (p : Phase ds) (threads : Threads)
      → IsDue p
      → ((j : ℕ) → IsDue (threads j))
      → (j : ℕ) → IsDue (set i p threads j)
  set-IsDue i p threads h k j = elim (Bool-cases (i == j)) [ inl e ↦ rw e h | inr e ↦ rw e (k j) ]

  -- However threads take turns in `make_writer`, the date of the next rotation never goes back, and no
  -- date is exchanged twice, so that for each date of a rotation at most one thread refreshes the
  -- file: the exchanged dates descend from the last, and all are less than the next date. The threads
  -- start outside `make_writer`, their clocks show dates since 1970 and at least one interval
  -- before the end of the year 9999.
  pub run-Advances :
      (turns : List (ℕ × OffsetDateTime)) (threads : Threads) (s : Shared ds)
      → r ≢ never
      → All (λ t. IsDated t.1) turns
      → ((j : ℕ) → IsDue (threads j))
      → IsBelow s.next_date s.won
      → Advances s (run turns threads s).1
  unfolding run
  run-Advances [] threads s h d q b = record { forward = omega arith; once = b }
  run-Advances ((i, now) ∷ turns) threads s h d q b =
      let (a, due) = turn-Advances now (threads i) s h d.0 (q i) b in
      let p = turn ds r now (threads i) s in
      let rest =
        run-Advances turns (set i p.0 threads) p.1 h d.1 (set-IsDue i p.0 threads due q) a.once in
      record { forward = omega (arith, a.forward, rest.forward); once = rest.once }
