-- ===== src/Blocking/Safety.antt =====
-- What the channel of examples/05-06_blocking.rs promises.
use rust_atomics_and_locks.Base.{
  ◌≡◌, ◌≢◌, refl, sym, ap, ◌∙◌, true, false, List, [], ◌∷◌, arith, run,
}
use rust_atomics_and_locks.Memory.{Covers}
use rust_atomics_and_locks.OneShot.{init}
use rust_atomics_and_locks.Blocking.{
  Parking, IsParking, Stage, unparked, sending, Receiver, testing, parking, reading, undefined,
  returned, Action, test, park, wake, read, Channel, test_ready, try_park, take, taken, send_step,
  receive_step, step, after,
}
use rust_atomics_and_locks.Blocking.Invariant.{Inv, waiting, step-Inv, after-Inv}

-- A round of `receive` from wherever it is.
abbrev pub round : {T : Type 0} → List (Action T)
round = park ∷ test ∷ read ∷ []

-- What each action of the receiver's round does, once `send` has returned.
module _ {p : Parking} {T : Type 0} (v : T) (s : Channel p T) (inv : Inv s)
    (who : s.sender ≡ sending unparked v) where
  idle_sender : (e : Action T) → step p e s ≡ receive_step p s.receiver e s
  unfolding step send_step
  idle_sender e = rw who

  park-ends : (x : Receiver T) → s.receiver ≡ x → (receive_step p x park s).receiver ≢ parking
  unfolding receive_step try_park
  park-ends parking at h = ground (arith, inv.token v who at)
  park-ends testing at h = cc
  park-ends reading at h = cc
  park-ends undefined at h = cc
  park-ends (returned w) at h = cc

  test-ends :
      (x : Receiver T)
      → s.receiver ≡ x
      → x ≢ parking
      → waiting (receive_step p x test s).receiver ≡ false
  unfolding receive_step test_ready
  test-ends parking at h = absurd (h refl)
  test-ends testing at h = ground (arith, inv.flag)
  test-ends reading at h = rw at
  test-ends undefined at h = rw at
  test-ends (returned w) at h = rw at

  read-ends :
      (x : Receiver T)
      → s.receiver ≡ x
      → waiting x ≡ false
      → (receive_step p x read s).receiver ≡ returned v
  unfolding receive_step take taken
  read-ends parking at h = absurd (cc)
  read-ends testing at h = absurd (cc)
  read-ends reading at h = rw (inv.content_reading v unparked who at)
  read-ends undefined at h = absurd (inv.defined at)
  read-ends (returned w) at h = at ∙ ap returned (inv.same_message v w unparked who at)

  keeps_sender : (x : Receiver T) (e : Action T) → (receive_step p x e s).sender ≡ s.sender
  unfolding receive_step test_ready try_park take
  keeps_sender testing test = refl
  keeps_sender parking park = ground arith
  keeps_sender parking wake = refl
  keeps_sender reading read = refl
  keeps_sender _ _ = refl

module _ {p : Parking} (lawful : IsParking p) {T : Type 0} (v : T) where
  step_keeps :
      (s : Channel p T)
      → Inv s
      → s.sender ≡ sending unparked v
      → (e : Action T) → (step p e s).sender ≡ sending unparked v
  step_keeps s inv who e =
      ap (λ t. t.sender) (idle_sender v s inv who e) ∙ keeps_sender v s inv who s.receiver e ∙ who

  round-returns :
      (s : Channel p T)
      → Inv s
      → s.sender ≡ sending unparked v
      → (run (step p) round s).receiver ≡ returned v
  unfolding run
  round-returns s inv who =
      let s1 = step p park s in
      let s2 = step p test s1 in
      let inv1 = step-Inv lawful park s inv in
      let inv2 = step-Inv lawful test s1 inv1 in
      let who1 = step_keeps s inv who park in
      let who2 = step_keeps s1 inv1 who1 test in
      ap (λ t. t.receiver) (idle_sender v s2 inv2 who2 read)
      ∙ read-ends v s2 inv2 who2 s2.receiver refl (
          ap (λ t. waiting t.receiver) (idle_sender v s1 inv1 who1 test)
          ∙ test-ends v s1 inv1 who1 s1.receiver refl (λ h.
            park-ends v s inv who s.receiver refl
              (sym (ap (λ t. t.receiver) (idle_sender v s inv who park)) ∙ h)))

module _ {p : Parking} (lawful : IsParking p) {T : Type 0} (es : List (Action T)) where
  -- A receiver that is past its test reads the message that was sent, and every access to the slot
  -- happens before its read.
  pub blocking_receive_safe :
      (v : T) (st : Stage)
      → (after p es).sender ≡ sending st v
      → (after p es).receiver ≡ reading
      → ((after p es).message.content ≡ init v)
        × Covers (after p es).receiver_local.seen (after p es).message.accesses
  blocking_receive_safe v st who at =
      let inv = after-Inv lawful es in (inv.content_reading v st who at, λ k. inv.reader_knows k at)

  -- What `receive` returns is the message that was sent.
  pub returns_the_message :
      (v w : T) (st : Stage)
      → (after p es).sender ≡ sending st v
      → (after p es).receiver ≡ returned w
      → w ≡ v
  returns_the_message v w st who at = (after-Inv lawful es).same_message v w st who at

  -- No wakeup is lost: when `send` has returned, a receiver in `park` does not block.
  pub park_returns :
      (v : T)
      → (after p es).sender ≡ sending unparked v
      → (after p es).receiver ≡ parking
      → p.returns (after p es).token ≡ true
  park_returns v who at = (after-Inv lawful es).token v who at

  -- The receiver is not left waiting: when `send` has returned, one more round of its loop, from
  -- wherever it is, ends with `receive` returning the message.
  pub receive_returns :
      (v : T)
      → (after p es).sender ≡ sending unparked v
      → (run (step p) round (after p es)).receiver ≡ returned v
  receive_returns v who = round-returns lawful v (after p es) (after-Inv lawful es) who
