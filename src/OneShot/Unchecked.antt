-- ===== src/OneShot/Unchecked.antt =====
-- examples/05-02_unsafe-oneshot-channel.rs: nothing is checked, and the caller is to call `send`
-- once, and `receive` once after `is_ready` returned true.
use rust_atomics_and_locks.Base.{ℕ, ◌≡◌, ◌≢◌, Bool, true, false, List, [], ◌∷◌, arith}
use rust_atomics_and_locks.Memory.{Covers, acquire, release, Atomic, Local, new, load, store}
use rust_atomics_and_locks.OneShot.{
  ChannelOps, Action, send, write, publish, receive, read, writing, holds_message, after,
}

default : Atomic Bool
default = new false

begin_send : Atomic Bool → Local → Bool × Atomic Bool × Local
begin_send g l = (true, g, l)

-- `self.ready.store(true, Release)`
finish_send : Atomic Bool → Local → Atomic Bool
finish_send g l = store release true l

-- A call of `is_ready` by the contract: the receiver goes on to `receive` if it returned true.
begin_receive : Atomic Bool → Local → Bool × Atomic Bool × Local
begin_receive g l = let r = load acquire g l in (r.0, g, r.1)

-- The test in `drop`: `self.ready.load(Acquire)`.
is_full : Atomic Bool → Bool
is_full g = g.value

unfoldable pub channel_ops : ChannelOps (Atomic Bool)
unfolding default begin_send finish_send begin_receive is_full
channel_ops = record {
  empty = default;
  begin_send = begin_send;
  finish_send = finish_send;
  begin_receive = begin_receive;
  is_full = is_full;
}

-- Thread `i` sends once, and thread `j` receives once after `is_ready` returned true.
abbrev pub by_the_contract : {T : Type 0} → ℕ → ℕ → T → List (ℕ × Action T)
by_the_contract i j v = (i, send v) ∷ (i, write) ∷ (i, publish) ∷ (j, receive) ∷ (j, read) ∷ []

-- Two threads call `send`, and the first has written its message.
abbrev pub two_sends : {T : Type 0} → ℕ → ℕ → T → T → List (ℕ × Action T)
two_sends i j v w = (i, send v) ∷ (j, send w) ∷ (i, write) ∷ []

-- A message is dropped twice although the contract was kept: whatever was sent, by thread `i`, and
-- received, by another thread `j`, the receiver has the message, and `drop` still finds its test
-- true and drops the slot, from which the message was moved out.
pub drop_after_receive :
    {T : Type 0} (i j : ℕ) (v : T)
    → i ≢ j
    → ((after channel_ops (by_the_contract i j v)).received ≡ v ∷ [])
      × (channel_ops.is_full (after channel_ops (by_the_contract i j v)).control ≡ true)
      × (holds_message (after channel_ops (by_the_contract i j v)).message.content ≡ false)
unfolding channel_ops after
drop_after_receive i j v apart = (ground arith, ground arith, ground arith)

-- The contract is needed: if two threads call `send`, the second one to write does so without the
-- first one's write happening before.
pub second_send_races :
    {T : Type 0} (i j : ℕ) (v w : T)
    → i ≢ j
    → (((after channel_ops (two_sends i j v w)).threads j).pc ≡ writing w)
      × ¬ Covers
          ((after channel_ops (two_sends i j v w)).threads j).local.seen
          (after channel_ops (two_sends i j v w)).message.accesses
unfolding channel_ops after
second_send_races i j v w apart = (ground arith, λ c. ground (arith, c i))
