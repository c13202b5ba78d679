-- ===== src/Queue/Safety.antt =====
-- What the channel of examples/05-01_simple-channel-with-mutex.rs promises.
use rust_atomics_and_locks.Base.{ℕ, ◌≡◌, refl, sym, ap, ◌∙◌, List, [], ◌∷◌, ◌++◌, run_invariant}
use mathlib.Core.List.{append_assoc}
use rust_atomics_and_locks.Futex.{Futex}
use rust_atomics_and_locks.Queue.{
  Pc, idle, notifying, receiving, waiting, returned, Action, send, notify, receive, pop, return,
  Channel, default, push_back, notify_one, pop_front, wake, perform, step, after,
}

-- Nothing is lost, repeated or reordered.
InOrder : {f : Futex} {T : Type 0} → Channel f T → Type 0
InOrder s = s.sent ≡ s.received ++ s.queue

module _ (f : Futex) {T : Type 0} where
  pop-InOrder :
      (i : ℕ) (q : List T) (s : Channel f T) → s.queue ≡ q → InOrder s → InOrder (pop_front f i q s)
  unfolding InOrder pop_front
  pop-InOrder i [] s e h = h
  pop-InOrder i (v ∷ vs) s e h =
      h ∙ ap (λ l. s.received ++ l) e ∙ sym (append_assoc s.received (v ∷ []) vs)

  perform-InOrder :
      (i : ℕ) (p : Pc T) (e : Action T) (s : Channel f T) → InOrder s → InOrder (perform f i p e s)
  unfolding InOrder perform push_back notify_one wake
  perform-InOrder i idle (send v) s h =
      ap (λ l. l ++ v ∷ []) h ∙ append_assoc s.received s.queue (v ∷ [])
  perform-InOrder i (returned w) (send v) s h =
      ap (λ l. l ++ v ∷ []) h ∙ append_assoc s.received s.queue (v ∷ [])
  perform-InOrder i notifying notify s h = h
  perform-InOrder i idle receive s h = h
  perform-InOrder i (returned w) receive s h = h
  perform-InOrder i receiving pop s h = pop-InOrder i s.queue s refl h
  perform-InOrder i waiting return s h = h
  perform-InOrder i _ _ s h = h

  step-InOrder : (e : ℕ × Action T) (s : Channel f T) → InOrder s → InOrder (step f e s)
  unfolding step
  step-InOrder (i, e) s h = perform-InOrder i (s.threads i) e s h

  -- Whatever the threads do and whichever sleepers wake, the messages sent, in their order, are
  -- those received, in their order, followed by those in the queue.
  pub first_in_first_out :
      (es : List (ℕ × Action T)) → (after f es).sent ≡ (after f es).received ++ (after f es).queue
  unfolding after InOrder default
  first_in_first_out es = run_invariant (step f) InOrder step-InOrder es (default f) refl
