-- ===== src/Signals/Exit.antt =====
-- From the exit flag to the end of `main`.
use linux_system_programming.Base.{
  subst, ℕ, suc, ◌+◌, ◌-◌, ◌≤◌, ◌≡◌, true, some, List, [], ◌∷◌, arith, some-injective,
}
use linux_system_programming.Signals.{
  Position, test, asleep, ended, sigint, sigusr1, sigterm, State, Event, signal, go, step, steps,
}
use linux_system_programming.Signals.Safety.{steps-cons}

-- how many steps `main` makes
abbrev pub moves : List Event → ℕ
moves [] = 0
moves (go ∷ es) = suc (moves es)
moves (signal x ∷ es) = moves es

abbrev left : Position → ℕ
left test = 1
left asleep = 2
left ended = 0

step-left :
    (x : Event) (s u : State)
    → s.should_exit ≡ true
    → step x s ≡ some u
    → (u.should_exit ≡ true) × (left u.position ≤ left s.position - moves (x ∷ []))
unfolding step
step-left (signal sigint) s u h e = ground arith
step-left (signal sigusr1) s u h e = ground arith
step-left (signal sigterm) s u h e = ground arith
step-left go s u h e = ground arith

moves-cons : (x : Event) (es : List Event) → moves (x ∷ es) ≡ moves (x ∷ []) + moves es
moves-cons x es = ground arith

left-zero : (p : Position) → left p ≤ 0 → p ≡ ended
left-zero p h = ground arith

steps-left :
    (es : List Event) (s u : State)
    → s.should_exit ≡ true
    → steps es s ≡ some u
    → left u.position ≤ left s.position - moves es
unfolding steps
steps-left [] s u h e =
    subst (λ (v : State). left v.position ≤ left s.position - 0) (some-injective s u e)
      (omega arith)
steps-left (x ∷ es) s u h e =
    let (m, p, q) = steps-cons x es s u e in
    let (flag, closer) = step-left x s m h p in
    omega (arith, steps-left es m u flag q, moves-cons x es)

left-le : (p : Position) → left p ≤ 2
left-le p = ground arith

-- Whatever signals arrive meanwhile, if no counter overflows: two steps of `main` after the exit flag
-- went up, `main` has ended.
pub steps-ended :
    (es : List Event) (s u : State)
    → s.should_exit ≡ true
    → 2 ≤ moves es
    → steps es s ≡ some u
    → u.position ≡ ended
steps-ended es s u h n e =
    left-zero u.position (omega (arith, steps-left es s u h e, left-le s.position))
