-- ===== src/OneShot/Safety.antt =====
-- What the one-shot channels promise, whatever threads do with them.
use rust_atomics_and_locks.Base.{
  ℕ, ◌≤◌, ◌≡◌, ◌⊎◌, inl, inr, Bool, true, false, List, [], arith, length, ◌+◌, Bool-cases,
  if◌then◌else◌,
}
use rust_atomics_and_locks.Memory.{View, Covers, nothing}
use rust_atomics_and_locks.OneShot.{
  Slot, uninit, init, moved, holds_message, ChannelOps, IsChannel, writing, reading, Action, after,
}
use rust_atomics_and_locks.OneShot.Invariant.{active, Ledger}
use rust_atomics_and_locks.OneShot.Steps.{after-Inv}

once :
    {T : Type 0} (x : Slot T) (s r : List T) → Ledger x s r → (length s ≤ 1) × ((r ≡ []) ⊎ (r ≡ s))
once uninit s r h = ground arith
once (init v) s r h = ground arith
once moved s r h = ground arith

unread :
    {T : Type 0} (x : Slot T) (s r : List T)
    → Ledger x s r
    → length s ≡ length r + (if holds_message x then 1 else 0)
unread uninit s r h = ground arith
unread (init v) s r h = ground arith
unread moved s r h = ground arith

module _ {T G : Type 0} {o : ChannelOps G} {unsent : G → Bool} {published : G → View}
    (lawful : IsChannel o unsent published) (es : List (ℕ × Action T)) where
  -- A thread that is about to read the message finds one in the slot, and every access to the slot
  -- so far, the write of the message among them, happens before its read.
  pub receive_safe :
      (i : ℕ)
      → ((after o es).threads i).pc ≡ reading
      → (holds_message (after o es).message.content ≡ true)
        × Covers ((after o es).threads i).local.seen (after o es).message.accesses
  receive_safe i at =
      ((after-Inv lawful es).held i (rw at), λ k. (after-Inv lawful es).held_known i k (rw at))

  -- A thread that is about to write its message finds a slot that nobody has accessed, so its
  -- write races with no other access so far.
  pub send_safe :
      (i : ℕ) (v : T)
      → ((after o es).threads i).pc ≡ writing v
      → Covers nothing (after o es).message.accesses
  send_safe i v at j =
      omega (arith, (after-Inv lawful es).untouched j ((after-Inv lawful es).unwritten i v at))

  -- At most one call of `send` or `receive` is past its check and not yet back.
  pub one_at_a_time :
      (i j : ℕ)
      → active ((after o es).threads i).pc ≡ true
      → active ((after o es).threads j).pc ≡ true
      → i ≡ j
  one_at_a_time = (after-Inv lawful es).alone

  -- At most one message is ever written, and the messages that receivers got are none or just that
  -- one; no read of a slot without a message has occurred.
  pub delivered_once :
      (length (after o es).sent ≤ 1)
      × (((after o es).received ≡ []) ⊎ ((after o es).received ≡ (after o es).sent))
      × ((after o es).fault ≡ false)
  delivered_once =
      let (few, got) = once _ _ _ (after-Inv lawful es).ledger in
      (few, got, (after-Inv lawful es).no_fault)

  -- When no call is under way, the test that `drop` makes is right: it holds exactly if the slot
  -- holds a message, and the messages written are those received and, if the test holds, one more.
  pub drop_exact :
      ((i : ℕ) → active ((after o es).threads i).pc ≡ false)
      → (o.is_full (after o es).control ≡ holds_message (after o es).message.content)
        × (length (after o es).sent
            ≡ length (after o es).received + (if o.is_full (after o es).control then 1 else 0))
  drop_exact quiet = (same, rw same (unread _ _ _ (after-Inv lawful es).ledger))
    where
      same : o.is_full (after o es).control ≡ holds_message (after o es).message.content
      same = elim (Bool-cases (holds_message (after o es).message.content)) [
        | inl there ↦ elim ((after-Inv lawful es).somewhere there) [
          | inl f ↦ cc
          | inr (j, p) ↦ absurd (ground (arith, quiet j))
        ]
        | inr gone ↦ ground (arith, (after-Inv lawful es).full)
      ]
