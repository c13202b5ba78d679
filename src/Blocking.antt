-- ===== src/Blocking.antt =====
-- examples/05-06_blocking.rs: the one-shot channel whose `receive` blocks, with the thread that
-- split it and received on it, and the one that sends. Its flag and slot are those of 05-05.
--
-- Whether `std::thread::park` would return is a parameter: parking is the standard library's.
pub mod Invariant
pub mod Safety
pub mod Dropping
mod Tests
use rust_atomics_and_locks.Base.{ℕ, ◌≡◌, Bool, true, false, List, if◌then◌else◌, run}
use rust_atomics_and_locks.Memory.{
  Local, fresh, acquire, release, Atomic, new, store, swap, Cell, cell, touch, note,
}
use rust_atomics_and_locks.OneShot.{Slot, uninit, init, moved}

-- The parking of one thread. `returns` says that `park` does not block, and `consumed` is what a
-- `park` that returns leaves.
pub record Parking : Type 1 where
  pub Token : Type 0
  pub absent : Token
  pub returns : Token → Bool
  pub unpark : Token → Token
  pub consumed : Token → Token

-- The documented behaviour: a `park` after an `unpark` returns.
pub record IsParking (p : Parking) : Type 0 where
  pub unpark-returns : (t : p.Token) → p.returns (p.unpark t) ≡ true

-- How far `send` has come: past the write, past the store, past `unpark`.
pub data Stage : Type 0 where
  written stored unparked : Stage

-- `undefined` is a read of a slot that holds no message; it is not in the source.
pub data Sender (T : Type 0) : Type 0 where
  holding : Sender T
  sending : (s : Stage) (v : T) → Sender T

pub data Receiver (T : Type 0) : Type 0 where
  testing parking reading undefined : Receiver T
  returned : (v : T) → Receiver T

pub data Action (T : Type 0) : Type 0 where
  send : (v : T) → Action T
  set_ready unpark_receiver test park wake read : Action T

module _ (p : Parking) where
  pub record Channel (T : Type 0) : Type 0 where
    pub ready : Atomic Bool
    pub message : Cell (Slot T)
    pub token : p.Token
    pub sender : Sender T
    pub sender_local : Local
    pub receiver : Receiver T
    pub receiver_local : Local

  module _ {T : Type 0} where
    -- `Channel::default()`, then `split()` by the thread that receives
    unfoldable pub split : Channel T
    split = record {
      ready = new false;
      message = cell uninit;
      token = p.absent;
      sender = holding;
      sender_local = fresh;
      receiver = testing;
      receiver_local = fresh;
    }

    -- `(*self.channel.message.get()).write(message)`
    pub write_message : T → Channel T → Channel T
    write_message v s = record s {
      message = touch 1 (init v) s.message;
      sender = sending written v;
      sender_local = note 1 s.message s.sender_local;
    }

    -- `self.channel.ready.store(true, Release)`
    pub publish : T → Channel T → Channel T
    publish v s = record s { ready = store release true s.sender_local; sender = sending stored v }

    -- `self.receiving_thread.unpark()`
    pub wake_receiver : T → Channel T → Channel T
    wake_receiver v s = record s { token = p.unpark s.token; sender = sending unparked v }

    -- `while !self.channel.ready.swap(false, Acquire)`
    pub test_ready : Channel T → Channel T
    test_ready s =
        let r = swap acquire false s.ready s.receiver_local in
        record s { ready = r.1; receiver = if r.0 then reading else parking; receiver_local = r.2 }

    -- `std::thread::park()`: it returns if it has a token, and otherwise blocks.
    pub try_park : Channel T → Channel T
    try_park s =
        if p.returns s.token then record s { token = p.consumed s.token; receiver = testing } else s

    taken : Slot T → Receiver T
    taken (init v) = returned v
    taken _ = undefined

    -- `(*self.channel.message.get()).assume_init_read()`
    pub take : Channel T → Channel T
    unfolding taken
    take s = record s {
      message = touch 0 moved s.message;
      receiver = taken s.message.content;
      receiver_local = note 0 s.message s.receiver_local;
    }

    -- `*self.ready.get_mut()`, by which `drop` decides whether to drop a message
    pub is_full : Channel T → Bool
    is_full s = s.ready.value

    pub send_step : Sender T → Action T → Channel T → Channel T
    unfolding write_message publish wake_receiver
    send_step holding (send v) s = write_message v s
    send_step (sending written v) set_ready s = publish v s
    send_step (sending stored v) unpark_receiver s = wake_receiver v s
    send_step _ _ s = s

    -- `wake` is a return of `park` without a token.
    pub receive_step : Receiver T → Action T → Channel T → Channel T
    unfolding test_ready try_park take
    receive_step testing test s = test_ready s
    receive_step parking park s = try_park s
    receive_step parking wake s = record s { receiver = testing }
    receive_step reading read s = take s
    receive_step _ _ s = s

    -- The actions of the two handles are different; one that is not next does not happen.
    unfoldable pub step : Action T → Channel T → Channel T
    unfolding send_step receive_step
    step e s = let s' = send_step s.sender e s in receive_step s'.receiver e s'

    -- The channel after the two threads have run.
    unfoldable pub after : List (Action T) → Channel T
    unfolding step split run
    after es = run step es split
