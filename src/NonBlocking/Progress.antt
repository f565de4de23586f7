-- ===== src/NonBlocking/Progress.antt =====
-- The worker goes on until the channel is empty, and ends once it is told to.
use tracing.Prelude.{ℕ, zero, suc, ◌≡◌, false, List, [], ◌∷◌, if◌then◌else◌, ◌⊎◌}
use tracing.NonBlocking.{
  Msg, received, Channel, Writer, Phase, waiting, draining, stopped, finished, end_thread, System,
  work,
}

-- The worker takes messages from the channel.
abbrev pub IsReceiving : Phase → Type 0
IsReceiving waiting = Unit {0}
IsReceiving draining = Unit {0}
IsReceiving stopped = ⊥
IsReceiving finished = ⊥

module _ (ch : Channel) (wr : Writer) where
  open wr use {W, write_all, flush}

  -- A channel with messages gives one to its receiver.
  abbrev pub Receives : Type 0
  Receives =
      (c : ch.Chan) (m : Msg) (ms : List Msg)
      → ch.contents c ≡ m ∷ ms
      → (d : ch.Chan) × (ch.recv c ≡ received m d) × (ch.contents d ≡ ms)

  -- That many turns of the worker, with no writer in between.
  pub turns : ℕ → System ch wr → System ch wr
  turns zero s = s
  turns (suc n) s = turns n (work ch wr s)

  -- The writer that was given the lines.
  abbrev pub written : List (List ℕ) → W → W
  written [] w = w
  written (l ∷ ls) w = written ls (write_all l w).1

  -- What the turns leave.
  pub record IsDrained (s t : System ch wr) (ls : List (List ℕ)) (rest : List Msg) : Type 0 where
    pub on_channel : ch.contents t.channel ≡ rest
    pub on_writer : t.writer ≡ written ls s.writer
    pub goes_on : IsReceiving t.phase

  -- What the worker's last turns come to: with the writer that the lines were given to, the flush after
  -- a shutdown, and the end of the thread.
  pub record IsEnding (t : System ch wr) (given : W) (rest : List Msg) : Type 0 where
    pub on_channel : ch.contents t.channel ≡ rest
    pub on_writer : t.writer ≡ (flush given).1
    pub on_phase : t.phase ≡ (if (flush given).0 then stopped else waiting)
    pub on_end : (work ch wr t ≡ end_thread ch wr t) ⊎ ((flush given).0 ≡ false)
