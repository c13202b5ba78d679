-- ===== src/Blocking/Dropping.antt =====
-- What the drop of the channel of examples/05-06_blocking.rs finds.
use rust_atomics_and_locks.Base.{◌≡◌, refl, Bool, true, false, List, [], arith, run_invariant}
use rust_atomics_and_locks.OneShot.{holds_message}
use rust_atomics_and_locks.Blocking.{
  Parking, IsParking, written, stored, unparked, Sender, holding, sending, Receiver, testing,
  parking, reading, undefined, returned, Action, send, set_ready, unpark_receiver, test, park, wake,
  read, Channel, split, write_message, publish, wake_receiver, test_ready, try_park, take, is_full,
  send_step, receive_step, step, after,
}
use rust_atomics_and_locks.Blocking.Invariant.{Inv, step-Inv, after-Inv}

-- Neither `send` nor `receive` is under way.
abbrev pub send_rests : {T : Type 0} → Sender T → Bool
send_rests holding = true
send_rests (sending unparked v) = true
send_rests _ = false

abbrev pub receive_rests : {T : Type 0} → Receiver T → Bool
receive_rests testing = true
receive_rests (returned v) = true
receive_rests _ = false

-- A slot that nothing was written to, or whose message was read, holds none.
record Emptied {p : Parking} {T : Type 0} (s : Channel p T) : Type 0 where
  unsent : s.sender ≡ holding → holds_message s.message.content ≡ false
  received : (v : T) → s.receiver ≡ returned v → holds_message s.message.content ≡ false

module _ {p : Parking} {T : Type 0} (s : Channel p T) (e : Emptied s) where
  open e use {unsent, received}

  send_step-unsent :
      (x : Sender T) (a : Action T)
      → s.sender ≡ x
      → (send_step p x a s).sender ≡ holding
      → holds_message (send_step p x a s).message.content ≡ false
  unfolding send_step write_message publish wake_receiver
  send_step-unsent holding (send v) at h = absurd (cc)
  send_step-unsent (sending written v) set_ready at h = absurd (cc)
  send_step-unsent (sending stored v) unpark_receiver at h = absurd (cc)
  send_step-unsent _ _ at h = unsent h

  send_step-received :
      Inv s
      → (x : Sender T) (a : Action T) (w : T) → s.sender ≡ x
      → (send_step p x a s).receiver ≡ returned w
      → holds_message (send_step p x a s).message.content ≡ false
  unfolding send_step write_message publish wake_receiver
  send_step-received inv holding (send v) w at h = absurd (ground (arith, inv.flag_down))
  send_step-received inv (sending written v) set_ready w at h = received w h
  send_step-received inv (sending stored v) unpark_receiver w at h = received w h
  send_step-received inv _ _ w at h = received w h

  receive_step-unsent :
      (x : Receiver T) (a : Action T)
      → s.receiver ≡ x
      → (receive_step p x a s).sender ≡ holding
      → holds_message (receive_step p x a s).message.content ≡ false
  unfolding receive_step test_ready try_park take
  receive_step-unsent testing test at h = ground (arith, unsent)
  receive_step-unsent parking park at h = ground (arith, unsent)
  receive_step-unsent parking wake at h = ground (arith, unsent)
  receive_step-unsent reading read at h = refl
  receive_step-unsent _ _ at h = unsent h

  receive_step-received :
      (x : Receiver T) (a : Action T) (w : T)
      → s.receiver ≡ x
      → (receive_step p x a s).receiver ≡ returned w
      → holds_message (receive_step p x a s).message.content ≡ false
  unfolding receive_step test_ready try_park take
  receive_step-received testing test w at h = absurd (ground arith)
  receive_step-received parking park w at h = absurd (ground arith)
  receive_step-received parking wake w at h = absurd (cc)
  receive_step-received reading read w at h = refl
  receive_step-received _ _ w at h = received w h

  send_step-Emptied :
      Inv s → (x : Sender T) (a : Action T) → s.sender ≡ x → Emptied (send_step p x a s)
  send_step-Emptied inv x a at = record {
    unsent = send_step-unsent x a at;
    received = λ w h. send_step-received inv x a w at h;
  }

  receive_step-Emptied :
      (x : Receiver T) (a : Action T) → s.receiver ≡ x → Emptied (receive_step p x a s)
  receive_step-Emptied x a at = record {
    unsent = receive_step-unsent x a at;
    received = λ w h. receive_step-received x a w at h;
  }

split-Emptied : {p : Parking} {T : Type 0} → Emptied (split p {T = T})
unfolding split
split-Emptied = record { unsent = λ h. refl; received = λ v h. absurd (cc) }

module _ {p : Parking} {T : Type 0} (s : Channel p T) (inv : Inv s) (e : Emptied s) where
  rests :
      (x : Sender T) (y : Receiver T)
      → s.sender ≡ x
      → s.receiver ≡ y
      → send_rests x ≡ true
      → receive_rests y ≡ true
      → is_full p s ≡ holds_message s.message.content
  unfolding is_full
  rests holding y at at' h h' = ground (arith, inv.flag_down, e.unsent)
  rests (sending unparked v) testing at at' h h' = ground (arith, inv.flag, inv.content v unparked)
  rests (sending unparked v) (returned w) at at' h h' = ground (arith, inv.flag, e.received w)
  rests (sending unparked v) parking at at' h h' = absurd (cc)
  rests (sending unparked v) reading at at' h h' = absurd (cc)
  rests (sending unparked v) undefined at at' h h' = absurd (cc)
  rests (sending written v) y at at' h h' = absurd (cc)
  rests (sending stored v) y at at' h h' = absurd (cc)

module _ {p : Parking} (lawful : IsParking p) {T : Type 0} where
  step-Emptied :
      (a : Action T) (s : Channel p T) → Inv s × Emptied s → Inv (step p a s) × Emptied (step p a s)
  unfolding step
  step-Emptied a s (inv, e) =
      let s' = send_step p s.sender a s in
      (
        step-Inv lawful a s inv,
        receive_step-Emptied s' (send_step-Emptied s e inv s.sender a refl) s'.receiver a refl,
      )

  both : (es : List (Action T)) → Inv (after p es) × Emptied (after p es)
  unfolding after
  both es =
      run_invariant (step p) (λ s. Inv s × Emptied s) step-Emptied es (split p)
        (after-Inv lawful [], split-Emptied)

  -- When neither `send` nor `receive` is under way, the test that `drop` makes is right: it holds
  -- exactly if the slot holds a message.
  pub blocking_drop_exact :
      (es : List (Action T))
      → send_rests (after p es).sender ≡ true
      → receive_rests (after p es).receiver ≡ true
      → is_full p (after p es) ≡ holds_message (after p es).message.content
  blocking_drop_exact es h h' =
      rests (after p es) (both es).0 (both es).1 (after p es).sender (after p es).receiver refl refl
        h h'
