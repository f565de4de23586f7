-- ===== src/NonBlocking.antt =====
-- tracing-appender/src/non_blocking.rs and worker.rs: lines that are sent over a bounded channel, and
-- the thread that gives them to a writer. The channel is the crate `crossbeam_channel`'s, and the
-- writer is the user's. Writers and the worker take turns in any order, an operation on the channel to
-- a turn; the update of the error counter is one step.
pub mod Delivery
pub mod Counter
pub mod Progress
mod Tests
use tracing.Prelude.{
  ℕ, ◌+◌, ◌-◌, ◌^◌, ◌≡◌, Bool, true, false, List, [], ◌∷◌, ◌++◌, Option, none, some, length, ◌==◌,
  if◌then◌else◌,
}
use tracing.Prelude.Result.{Result, ok, err}

-- `enum Msg`
pub data Msg : Type 0 where
  line : List ℕ → Msg
  shutdown : Msg

-- What comes of sending a message, and of receiving one.
pub data Sent (Chan : Type 0) : Type 0 where
  sent : Chan → Sent Chan
  full disconnected : Sent Chan

pub data Received (Chan : Type 0) : Type 0 where
  received : Msg → Chan → Received Chan
  no_message no_sender : Received Chan

-- The channel, in the order of first in, first out.
pub record Channel : Type 1 where
  pub Chan : Type 0
  pub contents : Chan → List Msg
  pub send : Msg → Chan → Sent Chan
  pub recv : Chan → Received Chan
  pub contents-send :
      (m : Msg) (c d : Chan) → send m c ≡ sent d → contents d ≡ contents c ++ (m ∷ [])
  pub contents-recv : (m : Msg) (c d : Chan) → recv c ≡ received m d → contents c ≡ m ∷ contents d

-- The trait `Write` of the writer; `false` is an error.
pub record Writer : Type 1 where
  pub W : Type 0
  pub write_all : List ℕ → W → Bool × W
  pub flush : W → Bool × W

-- The errors of `NonBlocking::write`.
pub data IoError : Type 0 where
  other : IoError

-- Where the worker is: in `recv`, in the loop of `work`, out of its loop of `work`s (where it waits
-- for `shutdown`), or at its end.
pub data Phase : Type 0 where
  waiting draining stopped finished : Phase

abbrev pub usize_max : ℕ
usize_max = 2 ^ 64 - 1

-- `ErrorCounter::incr_saturating`
unfoldable pub incr_saturating : ℕ → ℕ
incr_saturating curr = if curr == usize_max then curr else curr + 1

module _ (ch : Channel) (wr : Writer) where
  open ch use {Chan, contents, send, recv}
  open wr use {W, write_all, flush}

  -- `NonBlocking`, with the channel and the worker's thread
  pub record System : Type 0 where
    pub channel : Chan
    pub error_counter : ℕ
    pub is_lossy : Bool
    pub writer : W
    pub phase : Phase

  -- `try_send` and the counter, and `send`, which waits where there is no room: `none`.
  abbrev lossy_write : ℕ → System → Sent Chan → Option (Result IoError ℕ × System)
  unfolding incr_saturating
  lossy_write buf_size s (sent c) = some (ok buf_size, record s { channel = c })
  lossy_write buf_size s full =
      some (ok buf_size, record s { error_counter = incr_saturating s.error_counter })
  lossy_write buf_size s disconnected =
      some (ok buf_size, record s { error_counter = incr_saturating s.error_counter })

  abbrev blocking_write : ℕ → System → Sent Chan → Option (Result IoError ℕ × System)
  blocking_write buf_size s (sent c) = some (ok buf_size, record s { channel = c })
  blocking_write buf_size s full = none
  blocking_write buf_size s disconnected = some (err other, s)

  -- `Write::write`
  unfoldable pub write : List ℕ → System → Option (Result IoError ℕ × System)
  unfolding lossy_write
  write buf s =
      if s.is_lossy
      then lossy_write (length buf) s (send (line buf) s.channel)
      else blocking_write (length buf) s (send (line buf) s.channel)

  -- The flush at the end of `work`, and what the thread does with its result.
  abbrev end_work : Phase → System → System
  end_work next s =
      let r = flush s.writer in record s { writer = r.1; phase = if r.0 then next else waiting }

  -- `handle_recv` and `handle_try_recv`; after an error the thread calls `work` again.
  abbrev handle : System → Received Chan → System
  handle s (received (line msg) c) =
      let r = write_all msg s.writer in
      record s { channel = c; writer = r.1; phase = if r.0 then draining else waiting }
  handle s (received shutdown c) = end_work stopped (record s { channel = c })
  handle s no_sender = end_work stopped s
  handle s no_message = elim s.phase [
    | waiting ↦ s
    | draining ↦ end_work waiting s
    | stopped ↦ s
    | finished ↦ s
  ]

  -- The last flush of the thread, an error of which is only printed.
  abbrev pub end_thread : System → System
  end_thread s = record s { writer = (flush s.writer).1; phase = finished }

  -- One turn of the worker's thread.
  unfoldable pub work : System → System
  work s = elim s.phase [
    | waiting ↦ handle s (recv s.channel)
    | draining ↦ handle s (recv s.channel)
    | stopped ↦ end_thread s
    | finished ↦ s
  ]
