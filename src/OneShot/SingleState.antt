-- ===== src/OneShot/SingleState.antt =====
-- examples/05-03_represent_channel_state_with_single_atomic_variable.rs: the whole state is one byte.
use rust_atomics_and_locks.Base.{ℕ, refl, Bool, arith, ◌==◌}
use rust_atomics_and_locks.Memory.{
  View, relaxed, acquire, release, Atomic, Local, new, store, compare_exchange,
}
use rust_atomics_and_locks.OneShot.{ChannelOps, IsChannel}

abbrev empty : ℕ
empty = 0

abbrev writing : ℕ
writing = 1

abbrev ready : ℕ
ready = 2

abbrev reading : ℕ
reading = 3

default : Atomic ℕ
default = new empty

-- `if self.state.compare_exchange(EMPTY, WRITING, Relaxed, Relaxed).is_err() { panic!(...) }`
begin_send : Atomic ℕ → Local → Bool × Atomic ℕ × Local
begin_send g l =
    let r = compare_exchange relaxed relaxed (λ v. v == empty) writing g l in (r.0, r.2, r.3)

-- `self.state.store(READY, Release)`
finish_send : Atomic ℕ → Local → Atomic ℕ
finish_send g l = store release ready l

-- `if self.state.compare_exchange(READY, READING, Acquire, Relaxed).is_err() { panic!(...) }`
begin_receive : Atomic ℕ → Local → Bool × Atomic ℕ × Local
begin_receive g l =
    let r = compare_exchange acquire relaxed (λ v. v == ready) reading g l in (r.0, r.2, r.3)

-- The test in `drop`, through a mutable reference.
is_full : Atomic ℕ → Bool
is_full g = g.value == ready

abbrev pub unsent : Atomic ℕ → Bool
unsent g = g.value == empty

abbrev pub published : Atomic ℕ → View
published g = g.released

unfoldable pub channel_ops : ChannelOps (Atomic ℕ)
unfolding default begin_send finish_send begin_receive is_full
channel_ops = record {
  empty = default;
  begin_send = begin_send;
  finish_send = finish_send;
  begin_receive = begin_receive;
  is_full = is_full;
}

pub channel_ops-IsChannel : IsChannel channel_ops unsent published
unfolding channel_ops
channel_ops-IsChannel = record {
  empty_unsent = (refl, refl);
  send_won = λ g l h. ground arith;
  send_refused = λ g l h. ground arith;
  send_keeps = λ g l. ground arith;
  send_known = λ g l j h. ground arith;
  sent = λ g l h. ground arith;
  sent_known = λ g l j. omega arith;
  received = λ g l h. ground arith;
  receive_keeps = λ g l. ground arith;
  receive_refused = λ g l h. ground arith;
  refused_known = λ g l j h f. ground arith;
  received_known = λ g l j h. ground arith;
}
