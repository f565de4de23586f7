-- ===== src/NonBlocking/Delivery.antt =====
-- The lines that were accepted reach the writer in their order, and the others are counted.
use tracing.Prelude.{
  ℕ, ◌≡◌, refl, sym, ap, ◌∙◌, Bool, true, false, List, [], ◌∷◌, ◌++◌, Option, none, some, length,
  if◌then◌else◌,
}
use tracing.Prelude.Result.{Result}
use tracing.NonBlocking.{
  Msg, line, shutdown, Sent, sent, full, disconnected, Received, received, no_message, no_sender,
  Channel, Writer, Phase, waiting, draining, stopped, finished, end_thread, System, write, work,
  handle, end_work, lossy_write, blocking_write, IoError,
}

-- What happens: a line is written, or the worker takes a turn.
pub data Event : Type 0 where
  attempt : List ℕ → Event
  turn : Event

-- What the worker does with the writer.
pub data Call : Type 0 where
  put : List ℕ → Call
  flushed : Call

abbrev pub puts : List Call → List (List ℕ)
puts [] = []
puts (put l ∷ cs) = l ∷ puts cs
puts (flushed ∷ cs) = puts cs

abbrev pub lines_of : List Msg → List (List ℕ)
lines_of [] = []
lines_of (line l ∷ ms) = l ∷ lines_of ms
lines_of (shutdown ∷ ms) = lines_of ms

append_assoc : (xs ys zs : List (List ℕ)) → (xs ++ ys) ++ zs ≡ xs ++ (ys ++ zs)
append_assoc [] ys zs = refl
append_assoc (x ∷ xs) ys zs = ap (λ t. x ∷ t) (append_assoc xs ys zs)

append_nil : (xs : List (List ℕ)) → xs ++ [] ≡ xs
append_nil [] = refl
append_nil (x ∷ xs) = ap (λ t. x ∷ t) (append_nil xs)

puts-append : (a b : List Call) → puts (a ++ b) ≡ puts a ++ puts b
puts-append [] b = refl
puts-append (put l ∷ a) b = ap (λ t. l ∷ t) (puts-append a b)
puts-append (flushed ∷ a) b = puts-append a b

lines_of-append : (a b : List Msg) → lines_of (a ++ b) ≡ lines_of a ++ lines_of b
lines_of-append [] b = refl
lines_of-append (line l ∷ a) b = ap (λ t. l ∷ t) (lines_of-append a b)
lines_of-append (shutdown ∷ a) b = lines_of-append a b

module _ (ch : Channel) (wr : Writer) where
  abbrev pub apply : List Call → wr.W → wr.W
  apply [] w = w
  apply (put l ∷ cs) w = apply cs (wr.write_all l w).1
  apply (flushed ∷ cs) w = apply cs (wr.flush w).1

  -- A line that has to wait for room changes nothing yet.
  abbrev pub settle : System ch wr → Option (Result IoError ℕ × System ch wr) → System ch wr
  settle s none = s
  settle s (some r) = r.1

  unfoldable pub step : Event → System ch wr → System ch wr
  unfolding write work
  step (attempt buf) s = settle s (write ch wr buf s)
  step turn s = work ch wr s

  unfoldable pub run : List Event → System ch wr → System ch wr
  unfolding step
  run [] s = s
  run (e ∷ es) s = run es (step e s)

  -- The lines that go into the channel.
  abbrev pub taken : List ℕ → Sent ch.Chan → List (List ℕ)
  taken buf (sent c) = buf ∷ []
  taken buf full = []
  taken buf disconnected = []

  unfoldable pub accepted_now : Event → System ch wr → List (List ℕ)
  accepted_now (attempt buf) s = taken buf (ch.send (line buf) s.channel)
  accepted_now turn s = []

  unfoldable pub accepted : List Event → System ch wr → List (List ℕ)
  unfolding accepted_now step
  accepted [] s = []
  accepted (e ∷ es) s = accepted_now e s ++ accepted es (step e s)

  -- With the lines `acc`, what was in the channel was given to the writer or is in it.
  pub record IsDelivered (s t : System ch wr) (acc : List (List ℕ)) : Type 0 where
    pub calls : List Call
    pub on_writer : t.writer ≡ apply calls s.writer
    pub on_lines :
        lines_of (ch.contents s.channel) ++ acc ≡ puts calls ++ lines_of (ch.contents t.channel)

  apply-append : (a b : List Call) (w : wr.W) → apply (a ++ b) w ≡ apply b (apply a w)
  apply-append [] b w = refl
  apply-append (put l ∷ a) b w = apply-append a b (wr.write_all l w).1
  apply-append (flushed ∷ a) b w = apply-append a b (wr.flush w).1

  -- What a message that is received says of the channel.
  abbrev Matches : ch.Chan → Received ch.Chan → Type 0
  Matches c (received m d) = ch.contents c ≡ m ∷ ch.contents d
  Matches c no_message = Unit
  Matches c no_sender = Unit

  recv-Matches : (c : ch.Chan) → Matches c (ch.recv c)
  recv-Matches c = go (ch.recv c) refl
    where
      go : (r : Received ch.Chan) → ch.recv c ≡ r → Matches c r
      go (received m d) e = ch.contents-recv m c d e
      go no_message e = tt
      go no_sender e = tt

  same-IsDelivered : (s : System ch wr) → IsDelivered s s []
  same-IsDelivered s = record {
    calls = [];
    on_writer = refl;
    on_lines = append_nil (lines_of (ch.contents s.channel));
  }

  end_work-IsDelivered :
      (next : Phase) (s : System ch wr) → IsDelivered s (end_work ch wr next s) []
  end_work-IsDelivered next s = record {
    calls = flushed ∷ [];
    on_writer = refl;
    on_lines = append_nil (lines_of (ch.contents s.channel));
  }

  idle-IsDelivered :
      (s : System ch wr) (p : Phase)
      → IsDelivered s
          (elim p [
            | waiting ↦ s
            | draining ↦ end_work ch wr waiting s
            | stopped ↦ s
            | finished ↦ s
          ])
          []
  idle-IsDelivered s waiting = same-IsDelivered s
  idle-IsDelivered s draining = end_work-IsDelivered waiting s
  idle-IsDelivered s stopped = same-IsDelivered s
  idle-IsDelivered s finished = same-IsDelivered s

  handle-IsDelivered :
      (s : System ch wr) (r : Received ch.Chan)
      → Matches s.channel r
      → IsDelivered s (handle ch wr s r) []
  handle-IsDelivered s (received (line l) d) m = record {
    calls = put l ∷ [];
    on_writer = refl;
    on_lines = append_nil (lines_of (ch.contents s.channel)) ∙ ap lines_of m;
  }
  handle-IsDelivered s (received shutdown d) m = record {
    calls = flushed ∷ [];
    on_writer = refl;
    on_lines = append_nil (lines_of (ch.contents s.channel)) ∙ ap lines_of m;
  }
  handle-IsDelivered s no_message m = idle-IsDelivered s s.phase
  handle-IsDelivered s no_sender m = end_work-IsDelivered stopped s

  turn-IsDelivered :
      (s : System ch wr) (p : Phase)
      → IsDelivered s
          (elim p [
            | waiting ↦ handle ch wr s (ch.recv s.channel)
            | draining ↦ handle ch wr s (ch.recv s.channel)
            | stopped ↦ end_thread ch wr s
            | finished ↦ s
          ])
          []
  turn-IsDelivered s waiting = handle-IsDelivered s (ch.recv s.channel) (recv-Matches s.channel)
  turn-IsDelivered s draining = handle-IsDelivered s (ch.recv s.channel) (recv-Matches s.channel)
  turn-IsDelivered s stopped = record {
    calls = flushed ∷ [];
    on_writer = refl;
    on_lines = append_nil (lines_of (ch.contents s.channel));
  }
  turn-IsDelivered s finished = same-IsDelivered s

  -- A write, by whether it waits for room and what comes of sending.
  attempt-IsDelivered :
      (buf : List ℕ) (s : System ch wr) (lossy : Bool) (r : Sent ch.Chan)
      → ((d : ch.Chan) → r ≡ sent d → ch.contents d ≡ ch.contents s.channel ++ (line buf ∷ []))
      → IsDelivered s
          (settle s (
            if lossy
            then lossy_write ch wr (length buf) s r
            else blocking_write ch wr (length buf) s r))
          (taken buf r)
  unfolding lossy_write
  attempt-IsDelivered buf s true (sent d) m = record {
    calls = [];
    on_writer = refl;
    on_lines =
        sym (lines_of-append (ch.contents s.channel) (line buf ∷ []))
        ∙ sym (ap lines_of (m d refl));
  }
  attempt-IsDelivered buf s true full m = record {
    calls = [];
    on_writer = refl;
    on_lines = append_nil (lines_of (ch.contents s.channel));
  }
  attempt-IsDelivered buf s true disconnected m = record {
    calls = [];
    on_writer = refl;
    on_lines = append_nil (lines_of (ch.contents s.channel));
  }
  attempt-IsDelivered buf s false (sent d) m = record {
    calls = [];
    on_writer = refl;
    on_lines =
        sym (lines_of-append (ch.contents s.channel) (line buf ∷ []))
        ∙ sym (ap lines_of (m d refl));
  }
  attempt-IsDelivered buf s false full m = same-IsDelivered s
  attempt-IsDelivered buf s false disconnected m = same-IsDelivered s

  step-IsDelivered : (e : Event) (s : System ch wr) → IsDelivered s (step e s) (accepted_now e s)
  unfolding step write work accepted_now
  step-IsDelivered (attempt buf) s =
      attempt-IsDelivered buf s s.is_lossy (ch.send (line buf) s.channel)
        (λ d e. ch.contents-send (line buf) s.channel d e)
  step-IsDelivered turn s = turn-IsDelivered s s.phase

  -- In whatever order lines are written and the worker takes its turns: what the writer is given, in
  -- order, and then what is still in the channel, are the lines that were in the channel at the start
  -- and then those that it accepted since.
  pub run-IsDelivered :
      (es : List Event) (s : System ch wr) → IsDelivered s (run es s) (accepted es s)
  unfolding run accepted
  run-IsDelivered [] s = same-IsDelivered s
  run-IsDelivered (e ∷ es) s =
      let first = step-IsDelivered e s in
      let rest = run-IsDelivered es (step e s) in
      record {
        calls = first.calls ++ rest.calls;
        on_writer =
            rest.on_writer
            ∙ (ap (apply rest.calls) first.on_writer
                ∙ sym (apply-append first.calls rest.calls s.writer));
        on_lines =
            sym (
              append_assoc (lines_of (ch.contents s.channel)) (accepted_now e s)
                (accepted es (step e s)))
            ∙ (ap (λ t. t ++ accepted es (step e s)) first.on_lines
                ∙ (append_assoc (puts first.calls) (lines_of (ch.contents (step e s).channel))
                      (accepted es (step e s))
                    ∙ (ap (λ t. puts first.calls ++ t) rest.on_lines
                        ∙ (sym (
                              append_assoc (puts first.calls) (puts rest.calls)
                                (lines_of (ch.contents (run es (step e s)).channel)))
                            ∙ ap (λ t. t ++ lines_of (ch.contents (run es (step e s)).channel))
                                (sym (puts-append first.calls rest.calls))))));
      }
