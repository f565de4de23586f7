-- ===== src/NonBlocking/Tests.antt =====
-- A channel with room for two messages, as a list, and a writer that keeps its lines.
use tracing.Prelude.{ℕ, ◌≡◌, refl, true, false, List, [], ◌∷◌, ◌++◌, codes, arith}
use tracing.NonBlocking.{
  Msg, line, shutdown, Sent, sent, full, Received, received, no_message, Channel, Writer, waiting,
  System, work,
}
use tracing.NonBlocking.Delivery.{Event, attempt, turn, run, accepted, IsDelivered, run-IsDelivered}
use tracing.NonBlocking.Counter.{Counts, run-Counts, attempts}

abbrev send_two : Msg → List Msg → Sent (List Msg)
send_two m [] = sent (m ∷ [])
send_two m (a ∷ []) = sent (a ∷ m ∷ [])
send_two m (a ∷ b ∷ c) = full

abbrev recv_first : List Msg → Received (List Msg)
recv_first [] = no_message
recv_first (m ∷ ms) = received m ms

contents-send_two : (m : Msg) (c d : List Msg) → send_two m c ≡ sent d → d ≡ c ++ (m ∷ [])
contents-send_two m [] d e = cc
contents-send_two m (a ∷ []) d e = cc
contents-send_two m (a ∷ b ∷ c) d e = absurd cc

contents-recv_first : (m : Msg) (c d : List Msg) → recv_first c ≡ received m d → c ≡ m ∷ d
contents-recv_first m [] d e = absurd cc
contents-recv_first m (a ∷ c) d e = cc

abbrev two : Channel
two = record {
  Chan = List Msg;
  contents = λ c. c;
  send = send_two;
  recv = recv_first;
  contents-send = contents-send_two;
  contents-recv = contents-recv_first;
}

abbrev keeper : Writer
keeper = record {
  W = List (List ℕ);
  write_all = λ l w. (true, w ++ (l ∷ []));
  flush = λ w. (true, w);
}

-- A writer that cannot be flushed.
abbrev broken : Writer
broken = record { W = ℕ; write_all = λ l w. (true, w); flush = λ w. (false, w) }

-- If the flush at the end fails, then the worker waits for messages after it was told to stop.
missed_shutdown :
    (work two broken (record {
      channel = shutdown ∷ [];
      error_counter = 0;
      is_lossy = true;
      writer = 0;
      phase = waiting;
    })).phase
    ≡ waiting
unfolding work
missed_shutdown = refl

abbrev at_first : System two keeper
at_first = record { channel = []; error_counter = 0; is_lossy = true; writer = []; phase = waiting }

-- The third line finds no room.
abbrev events : List Event
events = attempt (codes "a") ∷ attempt (codes "b") ∷ attempt (codes "c") ∷ turn ∷ turn ∷ turn ∷ []

run-IsDelivered_example :
    IsDelivered two keeper at_first
      (run two keeper events at_first)
      (accepted two keeper events at_first)
run-IsDelivered_example = run-IsDelivered two keeper events at_first

run-Counts_example :
    Counts two keeper at_first
      (run two keeper events at_first)
      (attempts events)
      (accepted two keeper events at_first)
run-Counts_example = run-Counts two keeper events at_first refl (omega arith)

-- Two lines and a shutdown in a channel of any size.
abbrev told_to_stop : System two keeper
told_to_stop = record {
  channel = line (codes "a") ∷ line (codes "b") ∷ shutdown ∷ [];
  error_counter = 0;
  is_lossy = true;
  writer = [];
  phase = waiting;
}
