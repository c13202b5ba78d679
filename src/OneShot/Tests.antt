-- ===== src/OneShot/Tests.antt =====
-- Runs of the one-shot channels, and the theorems at them.
use rust_atomics_and_locks.Base.{
  ℕ, ◌+◌, ◌≤◌, ◌≡◌, refl, ◌⊎◌, true, false, List, [], ◌∷◌, ◌++◌, arith, length, if◌then◌else◌,
}
use rust_atomics_and_locks.Memory.{Covers, nothing}
use rust_atomics_and_locks.OneShot.{
  Action, send, write, publish, receive, read, writing, panicked, holds_message, after, uninit,
}
use rust_atomics_and_locks.OneShot.Invariant.{active}
use rust_atomics_and_locks.OneShot.Safety.{
  receive_safe, send_safe, one_at_a_time, delivered_once, drop_exact,
}
use rust_atomics_and_locks.OneShot.Unchecked
use rust_atomics_and_locks.OneShot.Unchecked.{
  by_the_contract, two_sends, drop_after_receive, second_send_races,
}
use rust_atomics_and_locks.OneShot.RuntimeChecks
use rust_atomics_and_locks.OneShot.SingleState
use rust_atomics_and_locks.OneShot.Typed
use rust_atomics_and_locks.OneShot.Borrowing

-- Thread 0 sends while thread 2 tries to send too, and thread 1 is past the check of `receive`.
abbrev sent : List (ℕ × Action ℕ)
sent = (0, send 7) ∷ (2, send 8) ∷ (0, write) ∷ (0, publish) ∷ (1, receive) ∷ []

abbrev delivered : List (ℕ × Action ℕ)
delivered = sent ++ (1, read) ∷ []

second_sender_panics : ((after RuntimeChecks.channel_ops sent).threads 2).pc ≡ panicked
unfolding after RuntimeChecks.channel_ops
second_sender_panics = refl

early_receiver_panics :
    ((after {T = ℕ} SingleState.channel_ops ((1, receive) ∷ [])).threads 1).pc ≡ panicked
unfolding after SingleState.channel_ops
early_receiver_panics = refl

message_arrives : (after SingleState.channel_ops delivered).received ≡ 7 ∷ []
unfolding after SingleState.channel_ops
message_arrives = refl

receive_safe_example :
    (holds_message (after RuntimeChecks.channel_ops sent).message.content ≡ true)
    × Covers
        ((after RuntimeChecks.channel_ops sent).threads 1).local.seen
        (after RuntimeChecks.channel_ops sent).message.accesses
unfolding after RuntimeChecks.channel_ops
receive_safe_example = receive_safe RuntimeChecks.channel_ops-IsChannel sent 1 refl

abbrev sending : List (ℕ × Action ℕ)
sending = (0, send 7) ∷ (2, send 8) ∷ []

send_safe_example : Covers nothing (after SingleState.channel_ops sending).message.accesses
unfolding after SingleState.channel_ops
send_safe_example = send_safe SingleState.channel_ops-IsChannel sending 0 7 refl

one_at_a_time_example : ◌≡◌ {A = ℕ} 0 0
unfolding after SingleState.channel_ops
one_at_a_time_example = one_at_a_time SingleState.channel_ops-IsChannel sending 0 0 refl refl

delivered_once_example :
    (length (after RuntimeChecks.channel_ops delivered).sent ≤ 1)
    × (((after RuntimeChecks.channel_ops delivered).received ≡ [])
        ⊎ ((after RuntimeChecks.channel_ops delivered).received
            ≡ (after RuntimeChecks.channel_ops delivered).sent))
    × ((after RuntimeChecks.channel_ops delivered).fault ≡ false)
delivered_once_example = delivered_once RuntimeChecks.channel_ops-IsChannel delivered

-- The receiver was dropped without a call of `receive`.
abbrev unread : List (ℕ × Action ℕ)
unread = (0, send 7) ∷ (0, write) ∷ (0, publish) ∷ []

nobody_active : (i : ℕ) → active ((after Typed.channel_ops unread).threads i).pc ≡ false
unfolding after Typed.channel_ops
nobody_active i = ground arith

drop_exact_example :
    (Typed.channel_ops.is_full (after Typed.channel_ops unread).control
      ≡ holds_message (after Typed.channel_ops unread).message.content)
    × (length (after Typed.channel_ops unread).sent
        ≡ length (after Typed.channel_ops unread).received
          + (if Typed.channel_ops.is_full (after Typed.channel_ops unread).control then 1 else 0))
drop_exact_example = drop_exact Typed.channel_ops-IsChannel unread nobody_active

-- Splitting again a channel with an unread message drops it, and starts slot and flag afresh.
split_drops_unread :
    Borrowing.split (
      (after Borrowing.borrowing_ops unread).message.content,
      (after Borrowing.borrowing_ops unread).control,
    )
    ≡ (true, uninit, Borrowing.handed_out)
unfolding after Borrowing.borrowing_ops Borrowing.split
split_drops_unread = refl

drop_after_receive_example :
    ((after Unchecked.channel_ops (by_the_contract {T = List ℕ} 0 1 (5 ∷ []))).received
      ≡ (5 ∷ []) ∷ [])
    × (Unchecked.channel_ops.is_full
          (after Unchecked.channel_ops (by_the_contract {T = List ℕ} 0 1 (5 ∷ []))).control
        ≡ true)
    × (holds_message
          (after Unchecked.channel_ops (by_the_contract {T = List ℕ} 0 1 (5 ∷ []))).message.content
        ≡ false)
drop_after_receive_example = drop_after_receive 0 1 (5 ∷ []) (omega arith)

second_send_races_example :
    (((after Unchecked.channel_ops (two_sends {T = ℕ} 0 1 7 8)).threads 1).pc ≡ writing 8)
    × ¬ Covers
        ((after Unchecked.channel_ops (two_sends {T = ℕ} 0 1 7 8)).threads 1).local.seen
        (after Unchecked.channel_ops (two_sends {T = ℕ} 0 1 7 8)).message.accesses
second_send_races_example = second_send_races 0 1 7 8 (omega arith)
