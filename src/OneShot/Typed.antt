-- ===== src/OneShot/Typed.antt =====
-- examples/05-04_safety-with-types.rs: `send` and `receive` take their handle by value, so a handle
-- that was used is gone. The borrowing channels of 05-05 and 05-06 have the same two handles.
use rust_atomics_and_locks.Base.{refl, Bool, true, false, arith, if◌then◌else◌}
use rust_atomics_and_locks.Memory.{View, acquire, release, Atomic, Local, new, store, swap}
use rust_atomics_and_locks.OneShot.{ChannelOps, IsChannel}

-- The channel's flag, and which of the two handles still exist.
pub record Handles : Type 0 where
  pub ready : Atomic Bool
  pub sender : Bool
  pub receiver : Bool

-- `channel()`
channel : Handles
channel = record { ready = new false; sender = true; receiver = true }

-- The call moves the sender in. Without one it does not compile, which the model refuses.
begin_send : Handles → Local → Bool × Handles × Local
begin_send g l = (g.sender, record g { sender = false }, l)

-- `self.channel.ready.store(true, Release)`
finish_send : Handles → Local → Handles
finish_send g l = record g { ready = store release true l }

-- The call moves the receiver in; then `if !self.channel.ready.swap(false, Acquire) { panic!(...) }`.
begin_receive : Handles → Local → Bool × Handles × Local
begin_receive g l =
    let r = swap acquire false g.ready l in
    if g.receiver then (r.0, record g { ready = r.1; receiver = false }, r.2) else (false, g, l)

-- The test in the channel's `drop`, through a mutable reference.
is_full : Handles → Bool
is_full g = g.ready.value

abbrev pub unsent : Handles → Bool
unsent g = g.sender

abbrev pub published : Handles → View
published g = g.ready.released

unfoldable pub channel_ops : ChannelOps Handles
unfolding channel begin_send finish_send begin_receive is_full
channel_ops = record {
  empty = channel;
  begin_send = begin_send;
  finish_send = finish_send;
  begin_receive = begin_receive;
  is_full = is_full;
}

pub channel_ops-IsChannel : IsChannel channel_ops unsent published
unfolding channel_ops
channel_ops-IsChannel = record {
  empty_unsent = (refl, refl);
  send_won = λ g l h. ground arith;
  send_refused = λ g l h. ground arith;
  send_keeps = λ g l. ground arith;
  send_known = λ g l j h. ground arith;
  sent = λ g l h. ground arith;
  sent_known = λ g l j. omega arith;
  received = λ g l h. ground arith;
  receive_keeps = λ g l. ground arith;
  receive_refused = λ g l h. ground arith;
  refused_known = λ g l j h f. ground arith;
  received_known = λ g l j h. ground arith;
}
