-- ===== src/Blocking/Invariant.antt =====
-- What the flag, the slot and the token say of the two threads of a blocking channel.
use rust_atomics_and_locks.Base.{
  ℕ, ◌≤◌, ◌≡◌, ◌≢◌, refl, Bool, true, false, List, arith, run_invariant,
}
use rust_atomics_and_locks.OneShot.{init}
use rust_atomics_and_locks.Blocking.{
  Parking, IsParking, Stage, written, stored, unparked, Sender, holding, sending, Receiver, testing,
  parking, reading, undefined, returned, Action, send, set_ready, unpark_receiver, test, park, wake,
  read, Channel, split, write_message, publish, wake_receiver, test_ready, try_park, take, taken,
  send_step, receive_step, step, after,
}

-- Still in the loop of `receive`.
abbrev pub waiting : {T : Type 0} → Receiver T → Bool
waiting testing = true
waiting parking = true
waiting _ = false

-- Before the store of `send`.
abbrev pub early : {T : Type 0} → Sender T → Bool
early holding = true
early (sending written v) = true
early _ = false

pub record Inv {p : Parking} {T : Type 0} (s : Channel p T) : Type 0 where
  pub flag_down : early s.sender ≡ true → (s.ready.value ≡ false) × (waiting s.receiver ≡ true)
  pub flag : early s.sender ≡ false → s.ready.value ≡ waiting s.receiver
  pub content :
      (v : T) (st : Stage)
      → s.sender ≡ sending st v
      → waiting s.receiver ≡ true
      → s.message.content ≡ init v
  pub content_reading :
      (v : T) (st : Stage)
      → s.sender ≡ sending st v
      → s.receiver ≡ reading
      → s.message.content ≡ init v
  pub same_message :
      (v w : T) (st : Stage) → s.sender ≡ sending st v → s.receiver ≡ returned w → w ≡ v
  pub defined : s.receiver ≢ undefined
  pub token :
      (v : T) → s.sender ≡ sending unparked v → s.receiver ≡ parking → p.returns s.token ≡ true
  pub untouched : (k : ℕ) → s.sender ≡ holding → s.message.accesses k ≡ 0
  pub sender_knows : (k : ℕ) → early s.sender ≡ true → s.message.accesses k ≤ s.sender_local.seen k
  pub published : (k : ℕ) → s.ready.value ≡ true → s.message.accesses k ≤ s.ready.released k
  pub reader_knows : (k : ℕ) → s.receiver ≡ reading → s.message.accesses k ≤ s.receiver_local.seen k

module _ {p : Parking} {T : Type 0} (s : Channel p T) (inv : Inv s) where
  open inv use {
    flag_down, flag, content, content_reading, same_message, defined, token, untouched,
    sender_knows, published, reader_knows,
  }

  write-Inv : (m : T) → s.sender ≡ holding → Inv (write_message p m s)
  unfolding write_message
  write-Inv m at = record {
    flag_down = λ h. ground (arith, flag_down);
    flag = λ h. ground (arith, flag);
    content = λ v st h w. ground (arith, content v st);
    content_reading = λ v st h w. ground (arith, content_reading v st, flag_down);
    same_message = λ v w st h e. ground (arith, same_message v w st, flag_down);
    defined = λ h. ground (arith, defined);
    token = λ v h w. ground (arith, token v, flag_down);
    untouched = λ k h. ground (arith, untouched k);
    sender_knows = λ k h. ground (arith, sender_knows k);
    published = λ k h. ground (arith, published k, flag_down);
    reader_knows = λ k h. ground (arith, reader_knows k, flag_down);
  }

  publish-Inv : (m : T) → s.sender ≡ sending written m → Inv (publish p m s)
  unfolding publish
  publish-Inv m at = record {
    flag_down = λ h. ground (arith, flag_down);
    flag = λ h. ground (arith, flag, flag_down);
    content = λ v st h w. ground (arith, content v st, content v written);
    content_reading = λ v st h w. ground (arith, content_reading v st, content_reading v written);
    same_message = λ v w st h e. ground (arith, same_message v w st, same_message v w written);
    defined = λ h. ground (arith, defined);
    token = λ v h w. ground (arith, token v);
    untouched = λ k h. ground (arith, untouched k);
    sender_knows = λ k h. ground (arith, sender_knows k);
    published = λ k h. ground (arith, published k, sender_knows k);
    reader_knows = λ k h. ground (arith, reader_knows k);
  }

  wake-Inv : IsParking p → (m : T) → s.sender ≡ sending stored m → Inv (wake_receiver p m s)
  unfolding wake_receiver
  wake-Inv lawful m at = record {
    flag_down = λ h. ground (arith, flag_down);
    flag = λ h. ground (arith, flag);
    content = λ v st h w. ground (arith, content v st, content v stored);
    content_reading = λ v st h w. ground (arith, content_reading v st, content_reading v stored);
    same_message = λ v w st h e. ground (arith, same_message v w st, same_message v w stored);
    defined = λ h. ground (arith, defined);
    token = λ v h w. ground (arith, token v, lawful.unpark-returns s.token);
    untouched = λ k h. ground (arith, untouched k);
    sender_knows = λ k h. ground (arith, sender_knows k);
    published = λ k h. ground (arith, published k);
    reader_knows = λ k h. ground (arith, reader_knows k);
  }

  test-Inv : s.receiver ≡ testing → Inv (test_ready p s)
  unfolding test_ready
  test-Inv at = record {
    flag_down = λ h. ground (arith, flag_down, flag);
    flag = λ h. ground (arith, flag, flag_down);
    content = λ v st h w. ground (arith, content v st);
    content_reading = λ v st h w. ground (arith, content_reading v st, content v st);
    same_message = λ v w st h e. ground (arith, same_message v w st);
    defined = λ h. ground (arith, defined);
    token = λ v h w. ground (arith, token v, flag);
    untouched = λ k h. ground (arith, untouched k);
    sender_knows = λ k h. ground (arith, sender_knows k);
    published = λ k h. ground (arith, published k);
    reader_knows = λ k h. ground (arith, reader_knows k, published k);
  }

  park-Inv : s.receiver ≡ parking → Inv (try_park p s)
  unfolding try_park
  park-Inv at = record {
    flag_down = λ h. ground (arith, flag_down);
    flag = λ h. ground (arith, flag);
    content = λ v st h w. ground (arith, content v st);
    content_reading = λ v st h w. ground (arith, content_reading v st);
    same_message = λ v w st h e. ground (arith, same_message v w st);
    defined = λ h. ground (arith, defined);
    token = λ v h w. ground (arith, token v);
    untouched = λ k h. ground (arith, untouched k);
    sender_knows = λ k h. ground (arith, sender_knows k);
    published = λ k h. ground (arith, published k);
    reader_knows = λ k h. ground (arith, reader_knows k);
  }

  wake_up-Inv : s.receiver ≡ parking → Inv (record s { receiver = testing })
  wake_up-Inv at = record {
    flag_down = λ h. ground (arith, flag_down);
    flag = λ h. ground (arith, flag);
    content = λ v st h w. ground (arith, content v st);
    content_reading = λ v st h w. absurd (cc);
    same_message = λ v w st h e. absurd (cc);
    defined = λ h. absurd (cc);
    token = λ v h w. absurd (cc);
    untouched = untouched;
    sender_knows = sender_knows;
    published = published;
    reader_knows = λ k h. absurd (cc);
  }

  taken_eq :
      (v : T) (st : Stage)
      → s.sender ≡ sending st v
      → s.receiver ≡ reading
      → taken p s.message.content ≡ returned v
  unfolding taken
  taken_eq v st who at = rw (content_reading v st who at)

  take-Inv : (v : T) (st : Stage) → s.sender ≡ sending st v → s.receiver ≡ reading → Inv (take p s)
  unfolding take
  take-Inv v st who at = record {
    flag_down = λ h. ground (arith, flag_down);
    flag = λ h. ground (arith, flag, taken_eq v st who at);
    content = λ u st' h w. absurd (ground (arith, taken_eq v st who at));
    content_reading = λ u st' h w. absurd (ground (arith, taken_eq v st who at));
    same_message = λ u w st' h e. ground (arith, taken_eq v st who at);
    defined = λ h. ground (arith, taken_eq v st who at);
    token = λ u h w. absurd (ground (arith, taken_eq v st who at));
    untouched = λ k h. absurd (cc);
    sender_knows = λ k h. ground (arith, flag_down);
    published = λ k h. ground (arith, flag, flag_down);
    reader_knows = λ k h. absurd (ground (arith, taken_eq v st who at));
  }

  send_step-Inv :
      IsParking p → (x : Sender T) (e : Action T) → s.sender ≡ x → Inv (send_step p x e s)
  unfolding send_step
  send_step-Inv lawful holding (send v) at = write-Inv v at
  send_step-Inv lawful (sending written v) set_ready at = publish-Inv v at
  send_step-Inv lawful (sending stored v) unpark_receiver at = wake-Inv lawful v at
  send_step-Inv lawful _ _ at = inv

  read-Inv : (x : Sender T) → s.sender ≡ x → s.receiver ≡ reading → Inv (take p s)
  read-Inv holding who at = absurd (ground (arith, flag_down))
  read-Inv (sending st v) who at = take-Inv v st who at

  receive_step-Inv : (x : Receiver T) (e : Action T) → s.receiver ≡ x → Inv (receive_step p x e s)
  unfolding receive_step
  receive_step-Inv testing test at = test-Inv at
  receive_step-Inv parking park at = park-Inv at
  receive_step-Inv parking wake at = wake_up-Inv at
  receive_step-Inv reading read at = read-Inv s.sender refl at
  receive_step-Inv _ _ at = inv

split-Inv : {p : Parking} {T : Type 0} → Inv (split p {T = T})
unfolding split
split-Inv = record {
  flag_down = λ h. (refl, refl);
  flag = λ h. absurd (cc);
  content = λ v st h w. absurd (cc);
  content_reading = λ v st h w. absurd (cc);
  same_message = λ v w st h e. absurd (cc);
  defined = λ h. absurd (cc);
  token = λ v h w. absurd (cc);
  untouched = λ k h. refl;
  sender_knows = λ k h. omega arith;
  published = λ k h. absurd (cc);
  reader_knows = λ k h. absurd (cc);
}

module _ {p : Parking} (lawful : IsParking p) {T : Type 0} where
  pub step-Inv : (e : Action T) (s : Channel p T) → Inv s → Inv (step p e s)
  unfolding step
  step-Inv e s inv =
      let s' = send_step p s.sender e s in
      receive_step-Inv s' (send_step-Inv s inv lawful s.sender e refl) s'.receiver e refl

  pub after-Inv : (es : List (Action T)) → Inv (after p es)
  unfolding after
  after-Inv es = run_invariant (step p) Inv step-Inv es (split p) split-Inv
