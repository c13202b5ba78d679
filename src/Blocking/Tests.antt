-- ===== src/Blocking/Tests.antt =====
-- Runs of the blocking channel, and the theorems at them.
use rust_atomics_and_locks.Base.{ℕ, ◌≡◌, refl, Bool, true, false, List, [], ◌∷◌, ◌++◌, run}
use rust_atomics_and_locks.Memory.{Covers}
use rust_atomics_and_locks.OneShot.{init, holds_message}
use rust_atomics_and_locks.Blocking.{
  Parking, IsParking, unparked, parking, returned, Action, send, set_ready, unpark_receiver, test,
  park, wake, read, step, after, is_full,
}
use rust_atomics_and_locks.Blocking.Dropping.{blocking_drop_exact}
use rust_atomics_and_locks.Blocking.Safety.{
  round, blocking_receive_safe, returns_the_message, park_returns, receive_returns,
}

-- A token that is there or not.
abbrev flag_parking : Parking
flag_parking = record {
  Token = Bool;
  absent = false;
  returns = λ t. t;
  unpark = λ t. true;
  consumed = λ t. false;
}

flag_parking-IsParking : IsParking flag_parking
flag_parking-IsParking = record { unpark-returns = λ t. refl }

-- The receiver parks before the message is there.
abbrev delivered : List (Action ℕ)
delivered = test ∷ park ∷ send 7 ∷ wake ∷ test ∷ set_ready ∷ unpark_receiver ∷ []

abbrev reading_it : List (Action ℕ)
reading_it = delivered ++ park ∷ test ∷ []

abbrev finished : List (Action ℕ)
finished = reading_it ++ read ∷ []

blocked : (after flag_parking {T = ℕ} (test ∷ park ∷ test ∷ [])).receiver ≡ parking
unfolding after
blocked = refl

blocking_receive_safe_example :
    ((after flag_parking reading_it).message.content ≡ init 7)
    × Covers
        (after flag_parking reading_it).receiver_local.seen
        (after flag_parking reading_it).message.accesses
unfolding after
blocking_receive_safe_example =
    blocking_receive_safe flag_parking-IsParking reading_it 7 unparked refl refl

returns_the_message_example : ◌≡◌ {A = ℕ} 7 7
unfolding after
returns_the_message_example =
    returns_the_message flag_parking-IsParking finished 7 7 unparked refl refl

park_returns_example : flag_parking.returns (after flag_parking delivered).token ≡ true
unfolding after
park_returns_example = park_returns flag_parking-IsParking delivered 7 refl refl

receive_returns_example :
    (run (step flag_parking) round (after flag_parking delivered)).receiver ≡ returned 7
unfolding after
receive_returns_example = receive_returns flag_parking-IsParking delivered 7 refl

-- `send` has returned, and nobody has called `receive`.
abbrev unread : List (Action ℕ)
unread = send 7 ∷ set_ready ∷ unpark_receiver ∷ []

unread_is_full : is_full flag_parking (after flag_parking unread) ≡ true
unfolding after is_full
unread_is_full = refl

blocking_drop_exact_example :
    is_full flag_parking (after flag_parking unread)
    ≡ holds_message (after flag_parking unread).message.content
unfolding after
blocking_drop_exact_example = blocking_drop_exact flag_parking-IsParking unread refl refl
