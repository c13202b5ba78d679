-- ===== src/OneShot.antt =====
-- The one-shot channels of chapter 5 and the threads that use them, with the checks left open:
-- examples 05-02_unsafe-oneshot-channel.rs, 05-03_safety-through-runtime-checks.rs,
-- 05-03_represent_channel_state_with_single_atomic_variable.rs and 05-04_safety-with-types.rs fill
-- them in.
--
-- Any number of threads interleave, and call `send` and `receive` as often as they like. A call
-- that panics ends its thread.
mod Invariant
mod Steps
pub mod Safety
pub mod Unchecked
pub mod RuntimeChecks
pub mod SingleState
pub mod Typed
pub mod Borrowing
mod Tests
use rust_atomics_and_locks.Base.{
  ℕ, ◌+◌, ◌≤◌, ◌≡◌, Bool, true, false, List, [], ◌∷◌, if◌then◌else◌, put, run,
}
use rust_atomics_and_locks.Memory.{View, Local, fresh, Cell, cell, touch, note}

-- A `MaybeUninit<T>`: never written, holding a message, or with its message moved out.
pub data Slot (T : Type 0) : Type 0 where
  uninit : Slot T
  init : (v : T) → Slot T
  moved : Slot T

-- Does the slot hold a message, as `assume_init_drop` and `assume_init_read` take for granted?
abbrev pub holds_message : {T : Type 0} → Slot T → Bool
holds_message (init v) = true
holds_message _ = false

-- The atomic part of a channel and what the methods do to it: the check at the start of `send`,
-- the store at its end, and the check at the start of `receive`; a false answer is a panic,
-- or says that the types rule the call out.
-- `is_full` is the test that `drop` makes.
pub record ChannelOps (G : Type 0) : Type 0 where
  pub empty : G
  pub begin_send : G → Local → Bool × G × Local
  pub finish_send : G → Local → G
  pub begin_receive : G → Local → Bool × G × Local
  pub is_full : G → Bool

-- What the checks owe. `unsent` says that no call of `send` has passed its check, and `published`
-- is the view that `receive` takes over. The views are compared at the accesses of thread `j`.
pub record IsChannel {G : Type 0} (o : ChannelOps G) (unsent : G → Bool) (published : G → View)
    : Type 0 where
  pub empty_unsent : (unsent o.empty ≡ true) × (o.is_full o.empty ≡ false)
  pub send_won :
      (g : G) (l : Local)
      → (o.begin_send g l).0 ≡ true
      → (unsent g ≡ true) × (unsent (o.begin_send g l).1 ≡ false)
  pub send_refused : (g : G) (l : Local) → (o.begin_send g l).0 ≡ false → unsent g ≡ false
  pub send_keeps :
      (g : G) (l : Local)
      → (o.is_full (o.begin_send g l).1 ≡ o.is_full g)
        × (unsent g ≡ false → unsent (o.begin_send g l).1 ≡ false)
  pub send_known :
      (g : G) (l : Local) (j : ℕ)
      → o.is_full g ≡ true
      → published g j ≤ published (o.begin_send g l).1 j
  pub sent :
      (g : G) (l : Local)
      → unsent g ≡ false
      → (o.is_full (o.finish_send g l) ≡ true) × (unsent (o.finish_send g l) ≡ false)
  pub sent_known : (g : G) (l : Local) (j : ℕ) → l.seen j ≤ published (o.finish_send g l) j
  pub received :
      (g : G) (l : Local)
      → (o.begin_receive g l).0 ≡ true
      → (o.is_full g ≡ true) × (o.is_full (o.begin_receive g l).1 ≡ false)
  pub receive_keeps : (g : G) (l : Local) → unsent (o.begin_receive g l).1 ≡ unsent g
  pub receive_refused :
      (g : G) (l : Local)
      → (o.begin_receive g l).0 ≡ false
      → o.is_full (o.begin_receive g l).1 ≡ o.is_full g
  pub refused_known :
      (g : G) (l : Local) (j : ℕ)
      → (o.begin_receive g l).0 ≡ false
      → o.is_full g ≡ true
      → published g j ≤ published (o.begin_receive g l).1 j
  pub received_known :
      (g : G) (l : Local) (j : ℕ)
      → (o.begin_receive g l).0 ≡ true
      → published g j ≤ (o.begin_receive g l).2.seen j

-- Where a thread stands: outside, past the check of `send`, past its write, past the check of
-- `receive`, or panicked.
pub data Pc (T : Type 0) : Type 0 where
  idle : Pc T
  writing : (v : T) → Pc T
  publishing reading panicked : Pc T

pub record Thread (T : Type 0) : Type 0 where
  pub pc : Pc T
  pub local : Local

-- `fault` records a read of a slot that holds no message. `sent` and `received` hold the messages
-- written and read, the newest first. None of the three is in the source.
pub record Channel (T G : Type 0) : Type 0 where
  pub control : G
  pub message : Cell (Slot T)
  pub threads : ℕ → Thread T
  pub fault : Bool
  pub sent : List T
  pub received : List T

pub data Action (T : Type 0) : Type 0 where
  send : (v : T) → Action T
  write publish receive read : Action T

module _ {T G : Type 0} where
  abbrev pub thread : ℕ → Pc T → Local → Channel T G → ℕ → Thread T
  thread i p l s = put s.threads i (record { pc = p; local = l })

  -- `(*self.message.get()).write(message)`
  write_message : ℕ → T → Channel T G → Channel T G
  write_message i v s = record s {
    message = touch i (init v) s.message;
    threads = thread i publishing (note i s.message (s.threads i).local) s;
    sent = v ∷ s.sent;
  }

  -- `(*self.message.get()).assume_init_read()`
  take : ℕ → Slot T → Channel T G → Channel T G
  take i (init v) s = record s {
    message = touch i moved s.message;
    threads = thread i idle (note i s.message (s.threads i).local) s;
    received = v ∷ s.received;
  }
  take i _ s = record s {
    message = touch i moved s.message;
    threads = thread i idle (note i s.message (s.threads i).local) s;
    fault = true;
  }

module _ {T G : Type 0} (o : ChannelOps G) where
  unfoldable pub start : Channel T G
  start = record {
    control = o.empty;
    message = cell uninit;
    threads = λ i. record { pc = idle; local = fresh };
    fault = false;
    sent = [];
    received = [];
  }

  call_send : ℕ → T → Channel T G → Channel T G
  call_send i v s =
      let r = o.begin_send s.control (s.threads i).local in
      record s { control = r.1; threads = thread i (if r.0 then writing v else panicked) r.2 s }

  finish : ℕ → Channel T G → Channel T G
  finish i s = record s {
    control = o.finish_send s.control (s.threads i).local;
    threads = thread i idle (s.threads i).local s;
  }

  call_receive : ℕ → Channel T G → Channel T G
  call_receive i s =
      let r = o.begin_receive s.control (s.threads i).local in
      record s { control = r.1; threads = thread i (if r.0 then reading else panicked) r.2 s }

  -- An action that is not the thread's next one does not happen.
  perform : ℕ → Pc T → Action T → Channel T G → Channel T G
  unfolding call_send write_message finish call_receive take
  perform i idle (send v) s = call_send i v s
  perform i (writing v) write s = write_message i v s
  perform i publishing publish s = finish i s
  perform i idle receive s = call_receive i s
  perform i reading read s = take i s.message.content s
  perform _ _ _ s = s

  unfoldable pub step : ℕ × Action T → Channel T G → Channel T G
  unfolding perform
  step (i, e) s = perform i (s.threads i).pc e s

  -- The channel after the threads have run.
  unfoldable pub after : List (ℕ × Action T) → Channel T G
  unfolding step start run
  after es = run step es start
