-- ===== src/LazyInit.antt =====
-- examples/03-05-02_lazy-initialization-with-dereferences.rs: threads that call `get_data`, and the
-- boxes that they allocate.
--
-- Any number of threads interleave, and each may call again when its call has returned. A pointer
-- is the number of its box in the order of the allocations; 0 is the null pointer.
pub mod Invariant
pub mod Safety
mod Tests
use rust_atomics_and_locks.Base.{
  ℕ, ◌+◌, ◌≡◌, Bool, true, false, List, ◌==◌, if◌then◌else◌, put, run,
}
use rust_atomics_and_locks.Memory.{
  Local, fresh, acquire, release, Atomic, new, load, compare_exchange, Cell, cell, touch, note,
}

-- `foo: i32`, which is not negative here.
pub record Data : Type 0 where
  pub foo : ℕ

-- `Data { foo: 42 }`
abbrev pub generate_data : Data
generate_data = record { foo = 42 }

-- Before the first call; past a load that found null; with a box of its own, before the exchange;
-- past the loser's exchange, with its own pointer and the one that it found; returned.
pub data Pc : Type 0 where
  idle generating : Pc
  exchanging : (p : ℕ) → Pc
  losing : (p found : ℕ) → Pc
  done : (p : ℕ) → Pc

pub record Thread : Type 0 where
  pub pc : Pc
  pub local : Local

-- `PTR`, the boxes, which of them are not dropped, and how many were allocated.
pub record Lazy : Type 0 where
  pub ptr : Atomic ℕ
  pub boxes : ℕ → Cell Data
  pub live : ℕ → Bool
  pub allocated : ℕ
  pub threads : ℕ → Thread

pub data Action : Type 0 where
  call generate exchange discard : Action

unfoldable pub start : Lazy
start = record {
  ptr = new 0;
  boxes = λ p. cell generate_data;
  live = λ p. false;
  allocated = 0;
  threads = λ i. record { pc = idle; local = fresh };
}

-- `let mut p = PTR.load(Acquire); if p.is_null()`
abbrev pub loaded : Lazy → Thread → Thread
loaded s t =
    let r = load acquire s.ptr t.local in
    if r.0 == 0
    then record { pc = generating; local = r.1 }
    else record { pc = done r.0; local = r.1 }

pub load_ptr : ℕ → Lazy → Lazy
load_ptr i s = record s { threads = put s.threads i (loaded s (s.threads i)) }

-- The box that `Box::new(generate_data())` makes, which thread `i` has written.
abbrev pub boxed : ℕ → Cell Data
boxed i = touch i generate_data (cell generate_data)

abbrev pub owning : ℕ → ℕ → Local → Thread
owning i p l = record { pc = exchanging p; local = note i (cell generate_data) l }

-- `p = Box::into_raw(Box::new(generate_data()))`
pub allocate : ℕ → Lazy → Lazy
allocate i s =
    let p = s.allocated + 1 in
    record s {
      boxes = put s.boxes p (boxed i);
      live = put s.live p true;
      allocated = p;
      threads = put s.threads i (owning i p (s.threads i).local);
    }

-- `PTR.compare_exchange(null_mut(), p, Release, Acquire)`
abbrev pub exchanged : ℕ → Lazy → Local → Bool × ℕ × Atomic ℕ × Local
exchanged p s l = compare_exchange release acquire (λ v. v == 0) p s.ptr l

abbrev pub answered : ℕ → Lazy → Local → Thread
answered p s l =
    let r = exchanged p s l in record { pc = if r.0 then done p else losing p r.1; local = r.3 }

pub publish : ℕ → ℕ → Lazy → Lazy
publish i p s = record s {
  ptr = (exchanged p s (s.threads i).local).2;
  threads = put s.threads i (answered p s (s.threads i).local);
}

-- `drop(Box::from_raw(p)); p = e`
pub drop_own : ℕ → ℕ → ℕ → Lazy → Lazy
drop_own i p found s = record s {
  boxes = put s.boxes p (touch i (s.boxes p).content (s.boxes p));
  live = put s.live p false;
  threads = put s.threads i (record { pc = done found; local = (s.threads i).local });
}

-- An action that is not the thread's next one does not happen.
pub perform : ℕ → Pc → Action → Lazy → Lazy
unfolding load_ptr allocate publish drop_own
perform i idle call s = load_ptr i s
perform i (done p) call s = load_ptr i s
perform i generating generate s = allocate i s
perform i (exchanging p) exchange s = publish i p s
perform i (losing p found) discard s = drop_own i p found s
perform _ _ _ s = s

unfoldable pub step : ℕ × Action → Lazy → Lazy
unfolding perform
step (i, e) s = perform i (s.threads i).pc e s

-- The state after the threads have run.
unfoldable pub after : List (ℕ × Action) → Lazy
unfolding step start run
after es = run step es start
