-- ===== src/Posix/Refinements.antt =====
-- A program against a simpler one that makes the same calls, though it keeps its data differently.
use linux_system_programming.Base.{Bool, true, false, ◌≡◌, refl, ap, List, [], ◌∷◌}
use linux_system_programming.Posix.Calls.{Call, Reply}
use linux_system_programming.Posix.Programs.{
  Line, Prog, ret, call, print, fault, spent, if◌then◌else◌, ◌>>=◌,
}
use linux_system_programming.Posix.Runs.{run, did, printed, before}

-- Both make the same calls and print the same lines, and their results are in `R`. Tests that only the
-- first makes must be decided.
pub data Refines {ℓ κ} {A : Type ℓ} {B : Type κ} (R : A → B → Type 0)
    : Prog A → Prog B → Type (ℓ ⊔ κ) where
  refines_ret : {a : A} {b : B} → R a b → Refines R (ret a) (ret b)
  refines_call :
      {c : Call} {k : Reply → Prog A} {m : Reply → Prog B}
      → ((r : Reply) → Refines R (k r) (m r))
      → Refines R (call c k) (call c m)
  refines_print :
      {l : Line} {p : Prog A} {q : Prog B} → Refines R p q → Refines R (print l p) (print l q)
  refines_if :
      {b : Bool} {p p' : Prog A} {q q' : Prog B}
      → (b ≡ true → Refines R p q)
      → (b ≡ false → Refines R p' q')
      → Refines R (if b then p else p') (if b then q else q')
  refines_then :
      {b : Bool} {p p' : Prog A} {q : Prog B}
      → b ≡ true
      → Refines R p q
      → Refines R (if b then p else p') q
  refines_else :
      {b : Bool} {p p' : Prog A} {q : Prog B}
      → b ≡ false
      → Refines R p' q
      → Refines R (if b then p else p') q
  refines_fault : Refines R fault fault
  refines_spent : Refines R spent spent

pub Refines-bind {ℓ κ ℓ' κ'} :
    {A : Type ℓ} {B : Type κ} {C : Type ℓ'} {D : Type κ'} {R : A → B → Type 0} {S : C → D → Type 0}
    {p : Prog A} {q : Prog B} (f : A → Prog C) (g : B → Prog D)
    → Refines R p q
    → ((a : A) (b : B) → R a b → Refines S (f a) (g b))
    → Refines S (p >>= f) (q >>= g)
Refines-bind f g (refines_ret h) k = k _ _ h
Refines-bind f g (refines_call h) k = refines_call (λ r. Refines-bind f g (h r) k)
Refines-bind f g (refines_print h) k = refines_print (Refines-bind f g h k)
Refines-bind f g (refines_if hp hq) k =
    refines_if (λ e. Refines-bind f g (hp e) k) (λ e. Refines-bind f g (hq e) k)
Refines-bind f g (refines_then e h) k = refines_then e (Refines-bind f g h k)
Refines-bind f g (refines_else e h) k = refines_else e (Refines-bind f g h k)
Refines-bind f g refines_fault k = refines_fault
Refines-bind f g refines_spent k = refines_spent

pub Refines-refl : {A : Type 0} (p : Prog A) → Refines (λ (a b : A). a ≡ b) p p
Refines-refl (ret a) = refines_ret refl
Refines-refl (call c k) = refines_call (λ r. Refines-refl (k r))
Refines-refl (print l p) = refines_print (Refines-refl p)
Refines-refl (if b then p else q) = refines_if (λ _. Refines-refl p) (λ _. Refines-refl q)
Refines-refl fault = refines_fault
Refines-refl spent = refines_spent

-- Programs with the same results run alike.
pub Refines-run :
    {A : Type 0} {p q : Prog A}
    → Refines (λ (a b : A). a ≡ b) p q
    → (rs : List Reply) → run p rs ≡ run q rs
unfolding run
Refines-run (refines_ret h) rs = rw h refl
Refines-run (refines_call h) [] = refl
Refines-run (refines_call {c} h) (r ∷ rs) = ap (before (did c r)) (Refines-run (h r) rs)
Refines-run (refines_print {l} h) rs = ap (before (printed l)) (Refines-run h rs)
Refines-run (refines_if {b = true} hp hq) rs = Refines-run (hp refl) rs
Refines-run (refines_if {b = false} hp hq) rs = Refines-run (hq refl) rs
Refines-run (refines_then e h) rs = rw e (Refines-run h rs)
Refines-run (refines_else e h) rs = rw e (Refines-run h rs)
Refines-run refines_fault rs = refl
Refines-run refines_spent rs = refl

module _ {ℓ κ} {A : Type ℓ} {B : Type κ} {R : A → B → Type 0} where
  -- a line that is written differently
  pub Refines-print :
      {l m : Line} {p : Prog A} {q : Prog B}
      → l ≡ m
      → Refines R p q
      → Refines R (print l p) (print m q)
  Refines-print e h = rw e (refines_print h)

  -- a test that is written differently
  pub Refines-if :
      {b c : Bool} {p p' : Prog A} {q q' : Prog B}
      → b ≡ c
      → (c ≡ true → Refines R p q)
      → (c ≡ false → Refines R p' q')
      → Refines R (if b then p else p') (if c then q else q')
  Refines-if e hp hq = rw e (refines_if hp hq)

pub ruleset refines_rules =
    (refines_ret, refines_call, refines_print, refines_if, refines_fault, refines_spent, refl)
