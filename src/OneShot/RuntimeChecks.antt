-- ===== src/OneShot/RuntimeChecks.antt =====
-- examples/05-03_safety-through-runtime-checks.rs: two flags, the first checked by `send`, the
-- second by `receive`.
use rust_atomics_and_locks.Base.{refl, Bool, true, false, not, arith}
use rust_atomics_and_locks.Memory.{View, relaxed, acquire, release, Atomic, Local, new, store, swap}
use rust_atomics_and_locks.OneShot.{ChannelOps, IsChannel}

pub record Flags : Type 0 where
  pub in_use : Atomic Bool
  pub ready : Atomic Bool

default : Flags
default = record { in_use = new false; ready = new false }

-- `if self.in_use.swap(true, Relaxed) { panic!(...) }`
begin_send : Flags → Local → Bool × Flags × Local
begin_send g l = let r = swap relaxed true g.in_use l in (not r.0, record g { in_use = r.1 }, r.2)

-- `self.ready.store(true, Release)`
finish_send : Flags → Local → Flags
finish_send g l = record g { ready = store release true l }

-- `if !self.ready.swap(false, Acquire) { panic!(...) }`
begin_receive : Flags → Local → Bool × Flags × Local
begin_receive g l = let r = swap acquire false g.ready l in (r.0, record g { ready = r.1 }, r.2)

-- The test in `drop`, through a mutable reference.
is_full : Flags → Bool
is_full g = g.ready.value

abbrev pub unsent : Flags → Bool
unsent g = not g.in_use.value

abbrev pub published : Flags → View
published g = g.ready.released

unfoldable pub channel_ops : ChannelOps Flags
unfolding default begin_send finish_send begin_receive is_full
channel_ops = record {
  empty = default;
  begin_send = begin_send;
  finish_send = finish_send;
  begin_receive = begin_receive;
  is_full = is_full;
}

pub channel_ops-IsChannel : IsChannel channel_ops unsent published
unfolding channel_ops
channel_ops-IsChannel = record {
  empty_unsent = (refl, refl);
  send_won = λ g l h. ground arith;
  send_refused = λ g l h. ground arith;
  send_keeps = λ g l. ground arith;
  send_known = λ g l j h. ground arith;
  sent = λ g l h. ground arith;
  sent_known = λ g l j. omega arith;
  received = λ g l h. ground arith;
  receive_keeps = λ g l. ground arith;
  receive_refused = λ g l h. ground arith;
  refused_known = λ g l j h f. ground arith;
  received_known = λ g l j h. ground arith;
}
