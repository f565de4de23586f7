-- ===== src/Callsite/Registration.antt =====
-- tracing-core/src/callsite.rs: `DefaultCallsite::register` and `Callsites::push_default` as threads
-- run them, one atomic operation to a step. A callsite is a number; `none` is the null pointer.
pub mod Invariant
pub mod Steps
use tracing.Prelude.{ℕ, ◌≡◌, ◌≢◌, Bool, Option, none, some, ◌==◌, if◌then◌else◌}

-- `UNREGISTERED`, `REGISTERING`, `REGISTERED`
pub data Registration : Type 0 where
  unregistered registering registered : Registration

-- What a thread that is in `register` of a callsite does next.
pub data Pc : Type 0 where
  idle : Pc
  load_head : ℕ → Pc
  store_next : ℕ → Option ℕ → Pc
  exchange_head : ℕ → Option ℕ → Pc
  finish : ℕ → Pc
  panicked : Pc

pub record System : Type 0 where
  pub registration : ℕ → Registration
  pub next : ℕ → Option ℕ
  pub list_head : Option ℕ
  pub pc : ℕ → Pc

abbrev pub update {ℓ} : {Slot : Type ℓ} → (ℕ → Slot) → ℕ → Slot → ℕ → Slot
update field at value other = if at == other then value else field other

abbrev ptr_eq : Option ℕ → Option ℕ → Bool
ptr_eq none none = Bool.true
ptr_eq none (some b) = Bool.false
ptr_eq (some a) none = Bool.false
ptr_eq (some a) (some b) = a == b

-- after the store to `next`: the `assert_ne!` of `push_default`
pub asserted : ℕ → Option ℕ → Pc
asserted c head = if ptr_eq (some c) head then panicked else exchange_head c head

pub data Step : System → System → Type 0 where
  -- the `compare_exchange` of `register` succeeds
  claim :
      (s : System) (i c : ℕ)
      → s.pc i ≡ idle
      → s.registration c ≡ unregistered
      → Step s (record s {
        registration = update s.registration c registering;
        pc = update s.pc i (load_head c);
      })
  -- it fails: the cached interest or `sometimes` is returned
  decline : (s : System) (i c : ℕ) → s.pc i ≡ idle → s.registration c ≢ unregistered → Step s s
  -- `push_default` loads the head
  load :
      (s : System) (i c : ℕ)
      → s.pc i ≡ load_head c
      → Step s (record s { pc = update s.pc i (store_next c s.list_head) })
  -- it stores the head as the callsite's `next`, and asserts that it is not the callsite
  store :
      (s : System) (i c : ℕ) (head : Option ℕ)
      → s.pc i ≡ store_next c head
      → Step s (record s { next = update s.next c head; pc = update s.pc i (asserted c head) })
  -- the `compare_exchange` of the head succeeds
  exchange :
      (s : System) (i c : ℕ) (head : Option ℕ)
      → s.pc i ≡ exchange_head c head
      → s.list_head ≡ head
      → Step s (record s { list_head = some c; pc = update s.pc i (finish c) })
  -- it fails, and the loop goes on with the head that it found
  retry :
      (s : System) (i c : ℕ) (head : Option ℕ)
      → s.pc i ≡ exchange_head c head
      → s.list_head ≢ head
      → Step s (record s { pc = update s.pc i (store_next c s.list_head) })
  -- the interest is built, and the callsite is registered
  complete :
      (s : System) (i c : ℕ)
      → s.pc i ≡ finish c
      → Step s
          (record s { registration = update s.registration c registered; pc = update s.pc i idle })

-- `CALLSITES` before any registration
abbrev pub start_system : System
start_system = record {
  registration = λ _. unregistered;
  next = λ _. none;
  list_head = none;
  pc = λ _. idle;
}

pub data Reach : System → Type 0 where
  start : Reach start_system
  later : {s t : System} → Reach s → Step s t → Reach t
