-- ===== src/Queue/Tests.antt =====
-- Runs of the channel over a queue, and the theorem at one.
use rust_atomics_and_locks.Base.{ℕ, ◌≡◌, refl, List, [], ◌∷◌, ◌++◌}
use rust_atomics_and_locks.Futex.Fifo.{fifo}
use rust_atomics_and_locks.Queue.{returned, Action, send, notify, receive, pop, return, after}
use rust_atomics_and_locks.Queue.Safety.{first_in_first_out}

-- Thread 1 sleeps until thread 0 has sent two messages.
abbrev two_messages : List (ℕ × Action ℕ)
two_messages =
    (1, receive)
    ∷ (1, pop)
    ∷ (0, send 7)
    ∷ (0, notify)
    ∷ (1, return)
    ∷ (0, send 8)
    ∷ (1, pop)
    ∷ (0, notify)
    ∷ []

message_received : (after fifo two_messages).threads 1 ≡ returned 7
unfolding after
message_received = refl

first_in_first_out_example :
    (after fifo two_messages).sent
    ≡ (after fifo two_messages).received ++ (after fifo two_messages).queue
first_in_first_out_example = first_in_first_out fifo two_messages
