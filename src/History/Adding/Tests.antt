-- ===== src/History/Adding/Tests.antt =====
-- Runs of the relaxed additions and loads, and the theorems at one.
use rust_atomics_and_locks.Base.{List, [], ◌∷◌, ◌≡◌, ◌⊎◌, refl}
use rust_atomics_and_locks.History.Adding.{printed, loaded}
use rust_atomics_and_locks.History.Adding.Ascending.{IsLine}
use rust_atomics_and_locks.History.Adding.OneThread
use rust_atomics_and_locks.History.Adding.TwoThreads
use rust_atomics_and_locks.History.Adding.OneThread.Safety.{printed_ascend}
use rust_atomics_and_locks.History.Adding.TwoThreads.Safety.{printed_one_order}

-- A load returns 0 after both additions, and once 5 is seen, 0 is refused.
abbrev late_run : List OneThread.Action
late_run =
    OneThread.add
    ∷ OneThread.add
    ∷ OneThread.look 0
    ∷ OneThread.look 1
    ∷ OneThread.look 0
    ∷ OneThread.look 1
    ∷ OneThread.look 2
    ∷ []

late_line : (OneThread.after late_run).reader ≡ printed 0 5 5 15
unfolding OneThread.after loaded
late_line = refl

printed_ascend_example : IsLine 5 0 5 5 15
printed_ascend_example = printed_ascend late_run 0 5 5 15 late_line

abbrev ten_first_run : List TwoThreads.Action
ten_first_run =
    TwoThreads.look 0
    ∷ TwoThreads.add_ten
    ∷ TwoThreads.add_five
    ∷ TwoThreads.look 1
    ∷ TwoThreads.look 2
    ∷ TwoThreads.look 2
    ∷ []

ten_first_line : (TwoThreads.after ten_first_run).reader ≡ printed 0 10 15 15
unfolding TwoThreads.after loaded
ten_first_line = refl

printed_one_order_example : IsLine 5 0 10 15 15 ⊎ IsLine 10 0 10 15 15
printed_one_order_example = printed_one_order ten_first_run 0 10 15 15 ten_first_line
