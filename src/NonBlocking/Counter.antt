-- ===== src/NonBlocking/Counter.antt =====
-- The error counter of a lossy writer.
use tracing.Prelude.{
  ℕ, suc, ◌+◌, ◌≤◌, min, ◌≡◌, refl, sym, ◌∙◌, true, List, [], ◌∷◌, length, length-append,
  if◌then◌else◌, arith, subst,
}
use tracing.NonBlocking.{
  line, shutdown, Sent, sent, full, disconnected, Received, received, no_message, no_sender,
  Channel, Writer, Phase, waiting, draining, stopped, finished, end_thread, System, write, work,
  handle, lossy_write, blocking_write, incr_saturating, usize_max,
}
use tracing.NonBlocking.Delivery.{
  Event, attempt, turn, settle, step, run, taken, accepted_now, accepted,
}

abbrev pub attempts : List Event → ℕ
attempts [] = 0
attempts (attempt buf ∷ es) = suc (attempts es)
attempts (turn ∷ es) = attempts es

attempts-cons : (e : Event) (es : List Event) → attempts (e ∷ es) ≡ attempts (e ∷ []) + attempts es
attempts-cons (attempt buf) es = omega arith
attempts-cons turn es = omega arith

module _ (ch : Channel) (wr : Writer) where
  -- The worker keeps the counter and the mode.
  record Keeps (s t : System ch wr) : Type 0 where
    same_counter : t.error_counter ≡ s.error_counter
    same_mode : t.is_lossy ≡ s.is_lossy

  handle-Keeps :
      (s : System ch wr) (p : Phase) (r : Received ch.Chan)
      → s.phase ≡ p
      → Keeps s (handle ch wr s r)
  handle-Keeps s p (received (line l) d) e = record { same_counter = refl; same_mode = refl }
  handle-Keeps s p (received shutdown d) e = record { same_counter = refl; same_mode = refl }
  handle-Keeps s waiting no_message e = ground arith
  handle-Keeps s draining no_message e = ground arith
  handle-Keeps s stopped no_message e = ground arith
  handle-Keeps s finished no_message e = ground arith
  handle-Keeps s p no_sender e = record { same_counter = refl; same_mode = refl }

  work-Keeps : (s : System ch wr) → Keeps s (work ch wr s)
  unfolding work
  work-Keeps s = by_phase s.phase refl
    where
      by_phase :
          (p : Phase)
          → s.phase ≡ p
          → Keeps s (elim p [
            | waiting ↦ handle ch wr s (ch.recv s.channel)
            | draining ↦ handle ch wr s (ch.recv s.channel)
            | stopped ↦ end_thread ch wr s
            | finished ↦ s
          ])
      by_phase waiting e = handle-Keeps s waiting (ch.recv s.channel) e
      by_phase draining e = handle-Keeps s draining (ch.recv s.channel) e
      by_phase stopped e = record { same_counter = refl; same_mode = refl }
      by_phase finished e = record { same_counter = refl; same_mode = refl }

  -- From `s` to `t`, `dropped` lines of `tried` were not accepted.
  pub record Counts (s t : System ch wr) (tried : ℕ) (acc : List (List ℕ)) : Type 0 where
    pub dropped : ℕ
    pub on_tried : tried ≡ length acc + dropped
    pub on_counter : t.error_counter ≡ min usize_max (s.error_counter + dropped)
    pub on_mode : t.is_lossy ≡ true

  lossy_write-Counts :
      (buf : List ℕ) (s : System ch wr) (r : Sent ch.Chan)
      → s.is_lossy ≡ true
      → s.error_counter ≤ usize_max
      → Counts s (settle ch wr s (lossy_write ch wr (length buf) s r)) 1 (taken ch wr buf r)
  unfolding lossy_write incr_saturating
  lossy_write-Counts buf s (sent d) l h = record {
    dropped = 0;
    on_tried = refl;
    on_counter = omega (arith, h);
    on_mode = l;
  }
  lossy_write-Counts buf s full l h = record {
    dropped = 1;
    on_tried = refl;
    on_counter = ground (arith, h);
    on_mode = l;
  }
  lossy_write-Counts buf s disconnected l h = record {
    dropped = 1;
    on_tried = refl;
    on_counter = ground (arith, h);
    on_mode = l;
  }

  step-Counts :
      (e : Event) (s : System ch wr)
      → s.is_lossy ≡ true
      → s.error_counter ≤ usize_max
      → Counts s (step ch wr e s) (attempts (e ∷ [])) (accepted_now ch wr e s)
  unfolding step write accepted_now
  step-Counts (attempt buf) s l h =
      let r = ch.send (line buf) s.channel in
      subst
        (λ m.
          Counts s
            (settle ch wr s (
              if m
              then lossy_write ch wr (length buf) s r
              else blocking_write ch wr (length buf) s r))
            1 (taken ch wr buf r))
        (sym l) (lossy_write-Counts buf s r l h)
  step-Counts turn s l h =
      let k = work-Keeps s in
      record {
        dropped = 0;
        on_tried = refl;
        on_counter = k.same_counter ∙ omega (arith, h);
        on_mode = k.same_mode ∙ l;
      }

  -- Of the lines that are written to a lossy writer, the error counter counts those that the channel
  -- did not accept, up to the greatest `usize`.
  pub run-Counts :
      (es : List Event) (s : System ch wr)
      → s.is_lossy ≡ true
      → s.error_counter ≤ usize_max
      → Counts s (run ch wr es s) (attempts es) (accepted ch wr es s)
  unfolding run accepted
  run-Counts [] s l h = record {
    dropped = 0;
    on_tried = refl;
    on_counter = omega (arith, h);
    on_mode = l;
  }
  run-Counts (e ∷ es) s l h =
      let first = step-Counts e s l h in
      let rest = run-Counts es (step ch wr e s) first.on_mode (omega (arith, first.on_counter)) in
      record {
        dropped = first.dropped + rest.dropped;
        on_tried = omega (
          arith,
          attempts-cons e es,
          first.on_tried,
          rest.on_tried,
          length-append (accepted_now ch wr e s) (accepted ch wr es (step ch wr e s)),
        );
        on_counter = omega (arith, first.on_counter, rest.on_counter);
        on_mode = rest.on_mode;
      }
