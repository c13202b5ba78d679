-- ===== src/OneShot/Invariant.antt =====
-- What holds between two steps of the threads that share a one-shot channel.
use rust_atomics_and_locks.Base.{
  ℕ, ◌≤◌, ◌≡◌, refl, ◌⊎◌, Bool, true, false, List, [], ◌∷◌, arith, length,
}
use rust_atomics_and_locks.Memory.{View}
use rust_atomics_and_locks.OneShot.{
  Slot, uninit, init, moved, holds_message, ChannelOps, IsChannel, Pc, idle, writing, publishing,
  reading, panicked, Channel, start,
}

-- Past a check, and not yet back.
abbrev pub active : {T : Type 0} → Pc T → Bool
active idle = false
active panicked = false
active _ = true

-- Past the write of `send`, or past the check of `receive`.
abbrev pub informed : {T : Type 0} → Pc T → Bool
informed publishing = true
informed reading = true
informed _ = false

-- What was sent and received, by the slot.
abbrev pub Ledger : {T : Type 0} → Slot T → List T → List T → Type 0
Ledger uninit s r = (s ≡ []) × (r ≡ [])
Ledger (init v) s r = (s ≡ v ∷ []) × (r ≡ [])
Ledger moved s r = (s ≡ r) × (length s ≡ 1)

-- The views are compared at the accesses of thread `k`.
pub record Inv {T G : Type 0} (o : ChannelOps G) (unsent : G → Bool) (published : G → View)
    (s : Channel T G) : Type 0 where
  pub alone : (i j : ℕ) → active (s.threads i).pc ≡ true → active (s.threads j).pc ≡ true → i ≡ j
  pub busy :
      (i : ℕ)
      → active (s.threads i).pc ≡ true
      → (unsent s.control ≡ false) × (o.is_full s.control ≡ false)
  pub blank : unsent s.control ≡ true → (s.message.content ≡ uninit) × (o.is_full s.control ≡ false)
  pub unwritten : (i : ℕ) (v : T) → (s.threads i).pc ≡ writing v → s.message.content ≡ uninit
  pub untouched : (k : ℕ) → s.message.content ≡ uninit → s.message.accesses k ≡ 0
  pub full : o.is_full s.control ≡ true → holds_message s.message.content ≡ true
  pub full_known :
      (k : ℕ) → o.is_full s.control ≡ true → s.message.accesses k ≤ published s.control k
  pub held : (i : ℕ) → informed (s.threads i).pc ≡ true → holds_message s.message.content ≡ true
  pub held_known :
      (i k : ℕ)
      → informed (s.threads i).pc ≡ true
      → s.message.accesses k ≤ (s.threads i).local.seen k
  pub somewhere :
      holds_message s.message.content ≡ true
      → (o.is_full s.control ≡ true) ⊎ ((i : ℕ) × (informed (s.threads i).pc ≡ true))
  pub no_fault : s.fault ≡ false
  pub ledger : Ledger s.message.content s.sent s.received

pub start-Inv :
    {T G : Type 0} {o : ChannelOps G} {unsent : G → Bool} {published : G → View}
    → IsChannel o unsent published
    → Inv o unsent published (start {T = T} o)
unfolding start
start-Inv lawful = record {
  alone = λ i j h k. cc;
  busy = λ i h. absurd (cc);
  blank = λ h. (refl, lawful.empty_unsent.1);
  unwritten = λ i v h. refl;
  untouched = λ k h. refl;
  full = λ h. absurd (cc lawful.empty_unsent.1);
  full_known = λ k h. omega arith;
  held = λ i h. absurd (cc);
  held_known = λ i k h. omega arith;
  somewhere = λ h. absurd (cc);
  no_fault = refl;
  ledger = (refl, refl);
}
