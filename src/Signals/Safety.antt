-- ===== src/Signals/Safety.antt =====
-- The exit flag against the signals delivered, and the range of the counters.
use native.Mathlib.Nat.{add_assoc, add-zero, zero-add}
use linux_system_programming.Base.{
  Option-cases, some-injective, ◌≢◌, subst, ℕ, suc, ◌+◌, ◌≤◌, ◌<◌, ◌≡◌, inl, inr, Bool, true, false,
  leb, ◌||◌, none, some, List, [], ◌∷◌, length, arith,
}
use linux_system_programming.Signals.{
  Position, ended, sigint, sigusr1, sigterm, State, Event, signal, go, step, steps, init, int_max,
}

-- how often a signal was delivered
abbrev pub ints : List Event → ℕ
ints [] = 0
ints (signal sigint ∷ es) = suc (ints es)
ints (_ ∷ es) = ints es

abbrev pub terms : List Event → ℕ
terms [] = 0
terms (signal sigterm ∷ es) = suc (terms es)
terms (_ ∷ es) = terms es

-- The flag is raised by the third interrupt or by a termination signal.
abbrev pub is_due : ℕ → ℕ → Bool
is_due i t = leb 3 i || leb 1 t

abbrev pub is_running : Position → Bool
is_running ended = false
is_running _ = true

-- The flag and the count follow the signals until `main` ends, which it does only when it is due.
pub record IsConsistent (i t : ℕ) (s : State) : Type 0 where
  pub counted : is_running s.position ≡ true → s.signal_count ≡ i
  pub flagged : is_running s.position ≡ true → s.should_exit ≡ is_due i t
  pub ended_due : is_running s.position ≡ false → is_due i t ≡ true

step-IsConsistent :
    (e : Event) (i t : ℕ) (s u : State)
    → IsConsistent i t s
    → step e s ≡ some u
    → IsConsistent (i + ints (e ∷ [])) (t + terms (e ∷ [])) u
unfolding step
step-IsConsistent (signal sigint) i t s u h e = ground (arith, h.counted, h.flagged, h.ended_due)
step-IsConsistent (signal sigusr1) i t s u h e = ground (arith, h.counted, h.flagged, h.ended_due)
step-IsConsistent (signal sigterm) i t s u h e = ground (arith, h.counted, h.flagged, h.ended_due)
step-IsConsistent go i t s u h e = ground (arith, h.counted, h.flagged, h.ended_due)

ints-cons : (e : Event) (es : List Event) → ints (e ∷ es) ≡ ints (e ∷ []) + ints es
ints-cons e es = ground arith

terms-cons : (e : Event) (es : List Event) → terms (e ∷ es) ≡ terms (e ∷ []) + terms es
terms-cons e es = ground arith

pub steps-cons :
    (x : Event) (es : List Event) (s u : State)
    → steps (x ∷ es) s ≡ some u
    → (m : State) × (step x s ≡ some m) × (steps es m ≡ some u)
unfolding steps
steps-cons x es s u e = elim (Option-cases (step x s)) [
  | inl p ↦ let h : none ≡ some u = rw (p, steps) at e in cc
  | inr (m, p) ↦ (m, p, rw (p, steps) at e)
]

steps-IsConsistent_from :
    (es : List Event) (i t : ℕ) (s u : State)
    → IsConsistent i t s
    → steps es s ≡ some u
    → IsConsistent (i + ints es) (t + terms es) u
unfolding steps
steps-IsConsistent_from [] i t s u h e =
    subst (λ v. IsConsistent (i + 0) (t + 0) v) (some-injective s u e)
      (rw (add-zero i, add-zero t) h)
steps-IsConsistent_from (x ∷ es) i t s u h e =
    let (m, p, q) = steps-cons x es s u e in
    rw (ints-cons x es, terms-cons x es, ← add_assoc i, ← add_assoc t)
      (steps-IsConsistent_from es _ _ m u (step-IsConsistent x i t s m h p) q)

-- After any sequence of signals and steps in which no counter overflows: while `main` runs, the counter is the number of interrupts
-- delivered and the exit flag is up exactly if there were three of them or a termination signal;
-- and `main` has ended only if there were.
pub steps-IsConsistent :
    (es : List Event) (u : State) → steps es init ≡ some u → IsConsistent (ints es) (terms es) u
steps-IsConsistent es u e =
    rw (zero-add, zero-add) at (steps-IsConsistent_from es 0 0 init u (ground arith) e)

module _ (x : Event) (s : State) (h : s.signal_count < int_max) (k : s.counter < int_max) where
  step-ne-none : step x s ≢ none
  unfolding step
  step-ne-none = ground arith

  step_bounds :
      (m : State)
      → step x s ≡ some m
      → (m.signal_count ≤ s.signal_count + 1) × (m.counter ≤ s.counter + 1)
  unfolding step
  step_bounds m e = ground arith

steps-ne-none_from :
    (es : List Event) (s : State)
    → s.signal_count + length es ≤ int_max
    → s.counter + length es ≤ int_max
    → steps es s ≢ none
unfolding steps
steps-ne-none_from [] s h k = λ e. cc
steps-ne-none_from (x ∷ es) s h k = elim (Option-cases (step x s)) [
  | inl p ↦ absurd (step-ne-none x s (omega arith) (omega arith) p)
  | inr (m, p) ↦
      let b = step_bounds x s (omega arith) (omega arith) m p in
      rw (p, steps) (steps-ne-none_from es m (omega arith) (omega arith))
]

-- No counter overflows while fewer than 2^31 signals and steps have happened.
pub steps-ne-none : (es : List Event) → length es ≤ int_max → steps es init ≢ none
steps-ne-none es h = steps-ne-none_from es init (omega arith) (omega arith)
