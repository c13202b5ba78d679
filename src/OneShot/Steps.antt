-- ===== src/OneShot/Steps.antt =====
-- Every step of the threads keeps the invariant of a one-shot channel.
use rust_atomics_and_locks.Base.{
  ℕ, ◌≡◌, refl, ◌⊎◌, inl, inr, Bool, true, false, List, arith, put_self, Bool-cases, run_invariant,
}
use rust_atomics_and_locks.Memory.{View, Local}
use rust_atomics_and_locks.OneShot.{
  Slot, uninit, init, moved, holds_message, ChannelOps, IsChannel, Pc, idle, writing, publishing,
  reading, Channel, start, Action, send, write, publish, receive, read, call_send, call_receive,
  write_message, take, finish, perform, step, after,
}
use rust_atomics_and_locks.OneShot.Invariant.{active, informed, Inv, start-Inv}

module _ {T G : Type 0} {o : ChannelOps G} {unsent : G → Bool} {published : G → View}
    (lawful : IsChannel o unsent published) {s : Channel T G} (inv : Inv o unsent published s) where
  open lawful use {send_won, send_refused, send_keeps, send_known}
  open inv use {
    alone, busy, blank, unwritten, untouched, full, full_known, held, held_known, somewhere,
    no_fault, ledger,
  }

  call_send-Inv :
      (i : ℕ) (v : T) → active (s.threads i).pc ≡ false → Inv o unsent published (call_send o i v s)
  unfolding call_send
  call_send-Inv i v out = record {
    alone = λ j k h h'. ground (arith, won, busy j, busy k, alone j k);
    busy = λ j h. ground (arith, won, keeps, busy j, blank);
    blank = λ h. ground (arith, won, keeps, lost, blank);
    unwritten = λ j w h. ground (arith, won, blank, unwritten j w);
    untouched = untouched;
    full = λ h. full (cc keeps.0);
    full_known =
        λ k h. omega (arith, full_known k (cc keeps.0), send_known s.control l k (cc keeps.0));
    held = λ j h. ground (arith, held j);
    held_known = λ j k h. ground (arith, held_known j k);
    somewhere =
        λ h. elim (somewhere h) [ inl f ↦ inl (cc keeps.0) | inr (j, p) ↦ inr (j, ground arith) ];
    no_fault = no_fault;
    ledger = ledger;
  }
    where
      l : Local
      l = (s.threads i).local

      won :
          (o.begin_send s.control l).0 ≡ true
          → (unsent s.control ≡ true) × (unsent (o.begin_send s.control l).1 ≡ false)
      won = send_won s.control l

      lost : (o.begin_send s.control l).0 ≡ false → unsent s.control ≡ false
      lost = send_refused s.control l

      keeps :
          (o.is_full (o.begin_send s.control l).1 ≡ o.is_full s.control)
          × (unsent s.control ≡ false → unsent (o.begin_send s.control l).1 ≡ false)
      keeps = send_keeps s.control l

  write_message-Inv :
      (i : ℕ) (v : T) → (s.threads i).pc ≡ writing v → Inv o unsent published (write_message i v s)
  unfolding write_message
  write_message-Inv i v at = record {
    alone = λ j k h h'. ground (arith, alone i j, alone i k, alone j k);
    busy = λ j h. ground (arith, busy i, busy j);
    blank = λ h. ground (arith, busy i);
    unwritten = λ j w h. ground (arith, alone i j);
    untouched = λ k h. cc;
    full = λ h. refl;
    full_known = λ k h. ground (arith, busy i);
    held = λ j h. refl;
    held_known = λ j k h. ground (arith, alone i j, untouched k, unwritten i v);
    somewhere = λ h. inr (i, ground (arith));
    no_fault = no_fault;
    ledger = ground (arith, unwritten i v, ledger);
  }

  finish-Inv : (i : ℕ) → (s.threads i).pc ≡ publishing → Inv o unsent published (finish o i s)
  unfolding finish
  finish-Inv i at = record {
    alone = λ j k h h'. ground (arith, alone i j, alone i k, alone j k);
    busy = λ j h. ground (arith, alone i j);
    blank = λ h. absurd (cc stored.1);
    unwritten = λ j w h. ground (arith, unwritten j w);
    untouched = untouched;
    full = λ h. here;
    full_known = λ k h. omega (arith, lawful.sent_known s.control l k, held_known i k (rw at));
    held = λ j h. here;
    held_known = λ j k h. ground (arith, held_known j k);
    somewhere = λ h. inl stored.0;
    no_fault = no_fault;
    ledger = ledger;
  }
    where
      l : Local
      l = (s.threads i).local

      stored :
          (o.is_full (o.finish_send s.control l) ≡ true)
          × (unsent (o.finish_send s.control l) ≡ false)
      stored = lawful.sent s.control l (busy i (rw at)).0

      here : holds_message s.message.content ≡ true
      here = held i (rw at)

  somewhere-call_receive :
      (i : ℕ)
      → active (s.threads i).pc ≡ false
      → holds_message (call_receive o i s).message.content ≡ true
      → (o.is_full (call_receive o i s).control ≡ true)
        ⊎ ((j : ℕ) × (informed ((call_receive o i s).threads j).pc ≡ true))
  unfolding call_receive
  somewhere-call_receive i out h =
      elim (Bool-cases (o.begin_receive s.control (s.threads i).local).0) [
        | inl won ↦ inr (i, ground (arith, put_self s.threads i))
        | inr lost ↦ elim (somewhere h) [
          | inl f ↦ inl (cc (lawful.receive_refused s.control (s.threads i).local lost))
          | inr (j, p) ↦ inr (j, ground arith)
        ]
      ]

  call_receive-Inv :
      (i : ℕ) → active (s.threads i).pc ≡ false → Inv o unsent published (call_receive o i s)
  unfolding call_receive
  call_receive-Inv i out = record {
    alone = λ j k h h'. ground (arith, won, busy j, busy k, alone j k);
    busy = λ j h. ground (arith, won, lost, keeps, busy j, full, blank);
    blank = λ h. ground (arith, won, lost, keeps, blank);
    unwritten = λ j w h. ground (arith, unwritten j w);
    untouched = untouched;
    full = λ h. ground (arith, won, lost, full);
    full_known = λ k h. ground (arith, won, lost, full_known k, lawful.refused_known s.control l k);
    held = λ j h. ground (arith, won, full, held j);
    held_known = λ j k h.
        ground (arith, won, full_known k, lawful.received_known s.control l k, held_known j k);
    somewhere = somewhere-call_receive i out;
    no_fault = no_fault;
    ledger = ledger;
  }
    where
      l : Local
      l = (s.threads i).local

      won :
          (o.begin_receive s.control l).0 ≡ true
          → (o.is_full s.control ≡ true) × (o.is_full (o.begin_receive s.control l).1 ≡ false)
      won = lawful.received s.control l

      lost :
          (o.begin_receive s.control l).0 ≡ false
          → o.is_full (o.begin_receive s.control l).1 ≡ o.is_full s.control
      lost = lawful.receive_refused s.control l

      keeps : unsent (o.begin_receive s.control l).1 ≡ unsent s.control
      keeps = lawful.receive_keeps s.control l

  take_init-Inv :
      (i : ℕ) (v : T)
      → (s.threads i).pc ≡ reading
      → s.message.content ≡ init v
      → Inv o unsent published (take i (init v) s)
  unfolding take
  take_init-Inv i v at e = record {
    alone = λ j k h h'. ground (arith, alone i j, alone i k, alone j k);
    busy = λ j h. ground (arith, alone i j);
    blank = λ h. ground (arith, busy i);
    unwritten = λ j w h. ground (arith, alone i j);
    untouched = λ k h. cc;
    full = λ h. ground (arith, busy i);
    full_known = λ k h. ground (arith, busy i);
    held = λ j h. ground (arith, alone i j);
    held_known = λ j k h. ground (arith, alone i j);
    somewhere = λ h. cc;
    no_fault = no_fault;
    ledger = ground (arith, ledger);
  }

  -- A thread past the check of `receive` finds a message.
  take-Inv :
      (i : ℕ) (x : Slot T)
      → (s.threads i).pc ≡ reading
      → s.message.content ≡ x
      → Inv o unsent published (take i x s)
  take-Inv i (init v) at e = take_init-Inv i v at e
  take-Inv i uninit at e = absurd (ground (arith, held i))
  take-Inv i moved at e = absurd (ground (arith, held i))

module _ {T G : Type 0} {o : ChannelOps G} {unsent : G → Bool} {published : G → View}
    (lawful : IsChannel o unsent published) where
  perform-Inv :
      (s : Channel T G)
      → Inv o unsent published s
      → (i : ℕ) (p : Pc T) (e : Action T) → (s.threads i).pc ≡ p
      → Inv o unsent published (perform o i p e s)
  unfolding perform
  perform-Inv s inv i idle (send v) at = call_send-Inv lawful inv i v (rw at)
  perform-Inv s inv i (writing v) write at = write_message-Inv lawful inv i v at
  perform-Inv s inv i publishing publish at = finish-Inv lawful inv i at
  perform-Inv s inv i idle receive at = call_receive-Inv lawful inv i (rw at)
  perform-Inv s inv i reading read at = take-Inv lawful inv i s.message.content at refl
  perform-Inv s inv i _ _ at = inv

  step-Inv :
      (e : ℕ × Action T) (s : Channel T G)
      → Inv o unsent published s
      → Inv o unsent published (step o e s)
  unfolding step
  step-Inv (i, e) s inv = perform-Inv s inv i (s.threads i).pc e refl

  pub after-Inv : (es : List (ℕ × Action T)) → Inv o unsent published (after o es)
  unfolding after
  after-Inv es =
      run_invariant (step o) (Inv o unsent published) step-Inv es (start o) (start-Inv lawful)
