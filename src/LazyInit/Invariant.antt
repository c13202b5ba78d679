-- ===== src/LazyInit/Invariant.antt =====
-- Who owns which box: the published one is everybody's, any other that is not yet dropped belongs
-- to the one thread that made it.
use rust_atomics_and_locks.Base.{
  ℕ, ◌+◌, ◌≤◌, ◌≡◌, ◌≢◌, ◌⊎◌, inl, inr, refl, true, List, arith, run_invariant, ◌==◌, Bool-cases,
}
use rust_atomics_and_locks.LazyInit.{
  Pc, idle, generating, exchanging, losing, done, Lazy, Action, call, generate, exchange, discard,
  start, load_ptr, allocate, publish, drop_own, perform, step, after,
}

-- The box that is the thread's own.
abbrev pub own : Pc → ℕ
own (exchanging p) = p
own (losing p found) = p
own _ = 0

-- The pointer that the thread has returned or is about to.
abbrev pub result : Pc → ℕ
result (losing p found) = found
result (done p) = p
result _ = 0

pub record Inv (s : Lazy) : Type 0 where
  pub published : s.ptr.value ≢ 0 → (s.live s.ptr.value ≡ true) × (s.ptr.value ≤ s.allocated)
  pub published_known :
      (k : ℕ) → s.ptr.value ≢ 0 → (s.boxes s.ptr.value).accesses k ≤ s.ptr.released k
  pub owned :
      (i : ℕ)
      → own (s.threads i).pc ≢ 0
      → (s.live (own (s.threads i).pc) ≡ true)
        × (own (s.threads i).pc ≤ s.allocated)
        × (own (s.threads i).pc ≢ s.ptr.value)
  pub owned_known :
      (i k : ℕ)
      → own (s.threads i).pc ≢ 0
      → (s.boxes (own (s.threads i).pc)).accesses k ≤ (s.threads i).local.seen k
  pub apart :
      (i j : ℕ) → own (s.threads i).pc ≢ 0 → own (s.threads i).pc ≡ own (s.threads j).pc → i ≡ j
  pub named : (i p : ℕ) → (s.threads i).pc ≡ exchanging p → p ≢ 0
  pub named_loser : (i p q : ℕ) → (s.threads i).pc ≡ losing p q → (p ≢ 0) × (q ≢ 0)
  pub named_done : (i p : ℕ) → (s.threads i).pc ≡ done p → p ≢ 0
  pub agreed : (i : ℕ) → result (s.threads i).pc ≢ 0 → result (s.threads i).pc ≡ s.ptr.value
  pub agreed_known :
      (i k : ℕ)
      → result (s.threads i).pc ≢ 0
      → (s.boxes s.ptr.value).accesses k ≤ (s.threads i).local.seen k
  pub no_leak :
      (p : ℕ)
      → s.live p ≡ true
      → (p ≢ 0) × ((p ≡ s.ptr.value) ⊎ ((i : ℕ) × (own (s.threads i).pc ≡ p)))

start-Inv : Inv start
unfolding start
start-Inv = record {
  published = λ h. absurd (h refl);
  published_known = λ k h. absurd (h refl);
  owned = λ i h. absurd (h refl);
  owned_known = λ i k h. absurd (h refl);
  apart = λ i j h. absurd (h refl);
  named = λ i p h. absurd (cc);
  named_loser = λ i p q h. absurd (cc);
  named_done = λ i p h. absurd (cc);
  agreed = λ i h. absurd (h refl);
  agreed_known = λ i k h. absurd (h refl);
  no_leak = λ p h. absurd (cc);
}

module _ (s : Lazy) (inv : Inv s) (i : ℕ) where
  open inv use {
    published, published_known, owned, owned_known, apart, named, named_loser, named_done, agreed,
    agreed_known, no_leak,
  }

  load_ptr-Inv : own (s.threads i).pc ≡ 0 → Inv (load_ptr i s)
  unfolding load_ptr
  load_ptr-Inv at = record {
    published = published;
    published_known = published_known;
    owned = λ j h. ground (arith, owned j);
    owned_known = λ j k h. ground (arith, owned_known j k);
    apart = λ j m h e. ground (arith, apart j m);
    named = λ j p h. ground (arith, named j p);
    named_loser = λ j p q h. ground (arith, named_loser j p q);
    named_done = λ j p h. ground (arith, named_done j p);
    agreed = λ j h. ground (arith, agreed j);
    agreed_known = λ j k h. ground (arith, agreed_known j k, published_known k);
    no_leak = λ p h. (
      (no_leak p h).0,
      elim ((no_leak p h).1) [ inl e ↦ inl e | inr (j, e) ↦ inr (j, ground (arith, no_leak p)) ],
    );
  }

  allocate-Inv : (s.threads i).pc ≡ generating → Inv (allocate i s)
  unfolding allocate
  allocate-Inv at = record {
    published = λ h. ground (arith, published);
    published_known = λ k h. ground (arith, published_known k, published);
    owned = λ j h. ground (arith, owned j, published);
    owned_known = λ j k h. ground (arith, owned_known j k, owned j);
    apart = λ j m h e. ground (arith, apart j m, owned j, owned m);
    named = λ j p h. ground (arith, named j p);
    named_loser = λ j p q h. ground (arith, named_loser j p q);
    named_done = λ j p h. ground (arith, named_done j p);
    agreed = λ j h. ground (arith, agreed j);
    agreed_known = λ j k h. ground (arith, agreed_known j k, published, agreed j);
    no_leak = λ p h. elim (Bool-cases (s.allocated + 1 == p)) [
      | inl e ↦ (ground arith, inr (i, ground arith))
      | inr e ↦
          let (z, o) = no_leak p (ground arith) in
          elim o [ inl e' ↦ (z, inl e') | inr (j, e') ↦ (z, inr (j, ground arith)) ]
    ];
  }

  publish-Inv : (p : ℕ) → (s.threads i).pc ≡ exchanging p → Inv (publish i p s)
  unfolding publish
  publish-Inv p at = record {
    published = λ h. ground (arith, published, owned i, named i p);
    published_known = λ k h. ground (arith, published_known k, owned_known i k, named i p);
    owned = λ j h. ground (arith, owned j, owned i, apart j i, named i p);
    owned_known = λ j k h. ground (arith, owned_known j k);
    apart = λ j m h e. ground (arith, apart j m);
    named = λ j q h. ground (arith, named j q);
    named_loser = λ j q r h. ground (arith, named_loser j q r, named i p);
    named_done = λ j q h. ground (arith, named_done j q, named i p);
    agreed = λ j h. ground (arith, agreed j);
    agreed_known = λ j k h.
        ground (arith, agreed_known j k, published_known k, owned_known i k, named i p, agreed j);
    no_leak = λ q h.
        let (z, o) = no_leak q h in
        elim o [
          | inl e ↦ (z, inl (ground arith))
          | inr (j, e) ↦ elim (Bool-cases (s.ptr.value == 0)) [
            | inl f ↦ elim (Bool-cases (i == j)) [
              | inl g ↦ (z, inl (ground arith))
              | inr g ↦ (z, inr (j, ground arith))
            ]
            | inr f ↦ (z, inr (j, ground arith))
          ]
        ];
  }

  drop_own-Inv : (p q : ℕ) → (s.threads i).pc ≡ losing p q → Inv (drop_own i p q s)
  unfolding drop_own
  drop_own-Inv p q at = record {
    published = λ h. ground (arith, published, owned i, named_loser i p q);
    published_known = λ k h. ground (arith, published_known k, owned i, named_loser i p q);
    owned = λ j h. ground (arith, owned j, apart j i);
    owned_known = λ j k h. ground (arith, owned_known j k, apart j i);
    apart = λ j m h e. ground (arith, apart j m);
    named = λ j r h. ground (arith, named j r);
    named_loser = λ j r t h. ground (arith, named_loser j r t);
    named_done = λ j r h. ground (arith, named_done j r, named_loser i p q);
    agreed = λ j h. ground (arith, agreed j, agreed i);
    agreed_known =
        λ j k h. ground (arith, agreed_known j k, agreed_known i k, owned i, named_loser i p q);
    no_leak = λ r h.
        let (z, o) = no_leak r (ground arith) in
        elim o [ inl e ↦ (z, inl e) | inr (j, e) ↦ (z, inr (j, ground arith)) ];
  }

  perform-Inv : (p : Pc) (e : Action) → (s.threads i).pc ≡ p → Inv (perform i p e s)
  unfolding perform
  perform-Inv idle call at = load_ptr-Inv (rw at)
  perform-Inv (done p) call at = load_ptr-Inv (rw at)
  perform-Inv generating generate at = allocate-Inv at
  perform-Inv (exchanging p) exchange at = publish-Inv p at
  perform-Inv (losing p q) discard at = drop_own-Inv p q at
  perform-Inv _ _ at = inv

step-Inv : (e : ℕ × Action) (s : Lazy) → Inv s → Inv (step e s)
unfolding step
step-Inv (i, e) s inv = perform-Inv s inv i (s.threads i).pc e refl

pub after-Inv : (es : List (ℕ × Action)) → Inv (after es)
unfolding after
after-Inv es = run_invariant step Inv step-Inv es start start-Inv
