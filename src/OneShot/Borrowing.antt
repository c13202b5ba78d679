-- ===== src/OneShot/Borrowing.antt =====
-- examples/05-05_avoiding-memory-allocation-by-using-borrowing.rs: the handles borrow the channel,
-- and `split` starts it afresh, which drops what it was. The flag of examples/05-06_blocking.rs is
-- the same.
use rust_atomics_and_locks.Base.{refl, Bool, true, false, arith, if◌then◌else◌}
use rust_atomics_and_locks.Memory.{
  View, relaxed, acquire, release, Atomic, Local, new, load, store, swap,
}
use rust_atomics_and_locks.OneShot.{Slot, uninit, ChannelOps, IsChannel}

-- The channel's flag.
pub record Flag : Type 0 where
  pub ready : Atomic Bool

-- `Sender` and `Receiver`: which of the two borrow the channel still.
pub record Borrows : Type 0 where
  pub channel : Flag
  pub sender : Bool
  pub receiver : Bool

-- `Channel::default()`, beside its slot
abbrev pub default : Flag
default = record { ready = new false }

-- The test in the channel's `drop`, through a mutable reference.
pub is_full : Borrows → Bool
is_full g = g.channel.ready.value

-- The two handles on a channel that is empty.
abbrev pub handed_out : Borrows
handed_out = record { channel = default; sender = true; receiver = true }

-- `*self = Self::default()` and the two handles: the slot and the flag start afresh. The Boolean says
-- whether the assignment drops a message of the channel that was.
unfoldable pub split : {T : Type 0} → Slot T × Borrows → Bool × Slot T × Borrows
unfolding is_full
split (slot, g) = (is_full g, uninit, handed_out)

-- The call moves the sender in. Without one it does not compile, which the model refuses.
begin_send : Borrows → Local → Bool × Borrows × Local
begin_send g l = (g.sender, record g { sender = false }, l)

-- `self.channel.ready.store(true, Release)`
finish_send : Borrows → Local → Borrows
finish_send g l = record g { channel = record { ready = store release true l } }

-- `self.channel.ready.load(Relaxed)`
unfoldable pub is_ready : Borrows → Local → Bool × Local
is_ready g l = load relaxed g.channel.ready l

-- The call moves the receiver in; then `if !self.channel.ready.swap(false, Acquire) { panic!(...) }`.
begin_receive : Borrows → Local → Bool × Borrows × Local
begin_receive g l =
    let r = swap acquire false g.channel.ready l in
    if g.receiver
    then (r.0, record g { channel = record { ready = r.1 }; receiver = false }, r.2)
    else (false, g, l)

abbrev pub unsent : Borrows → Bool
unsent g = g.sender

abbrev pub published : Borrows → View
published g = g.channel.ready.released

unfoldable pub borrowing_ops : ChannelOps Borrows
unfolding begin_send finish_send begin_receive is_full
borrowing_ops = record {
  empty = handed_out;
  begin_send = begin_send;
  finish_send = finish_send;
  begin_receive = begin_receive;
  is_full = is_full;
}

pub borrowing_ops-IsChannel : IsChannel borrowing_ops unsent published
unfolding borrowing_ops
borrowing_ops-IsChannel = record {
  empty_unsent = (refl, refl);
  send_won = λ g l h. ground arith;
  send_refused = λ g l h. ground arith;
  send_keeps = λ g l. ground arith;
  send_known = λ g l j h. ground arith;
  sent = λ g l h. ground arith;
  sent_known = λ g l j. omega arith;
  received = λ g l h. ground arith;
  receive_keeps = λ g l. ground arith;
  receive_refused = λ g l h. ground arith;
  refused_known = λ g l j h f. ground arith;
  received_known = λ g l j h. ground arith;
}
