-- ===== src/Posix/Fuel.antt =====
-- Loops take a number of rounds; how many rounds a run needs.
use linux_system_programming.Base.{
  ℕ, zero, suc, ◌<◌, ◌≢◌, Bool, true, false, List, [], ◌∷◌, length, arith,
}
use linux_system_programming.Posix.Calls.{Call, Reply}
use linux_system_programming.Posix.Programs.{
  Line, Prog, ret, call, print, fault, if◌then◌else◌, ◌>>=◌,
}
use linux_system_programming.Posix.Runs.{cut, run}

-- No run of `p` against fewer than `n` replies is cut short.
pub data Lasts {ℓ} {A : Type ℓ} : Prog A → ℕ → Type ℓ where
  lasts_none : {p : Prog A} → Lasts p zero
  lasts_ret : {a : A} {n : ℕ} → Lasts (ret a) n
  lasts_round :
      {c : Call} {k : Reply → Prog A} {n : ℕ}
      → ((r : Reply) → Lasts (k r) n)
      → Lasts (call c k) (suc n)
  lasts_call :
      {c : Call} {k : Reply → Prog A} {n : ℕ} → ((r : Reply) → Lasts (k r) n) → Lasts (call c k) n
  lasts_print : {l : Line} {p : Prog A} {n : ℕ} → Lasts p n → Lasts (print l p) n
  lasts_if :
      {b : Bool} {p q : Prog A} {n : ℕ} → Lasts p n → Lasts q n → Lasts (if b then p else q) n
  lasts_fault : {n : ℕ} → Lasts fault n

pub Lasts-run {ℓ} :
    {A : Type ℓ} {p : Prog A} {n : ℕ}
    → Lasts p n
    → (rs : List Reply) → length rs < n
    → (run p rs).outcome ≢ cut
unfolding run
Lasts-run lasts_none rs lt = absurd (omega arith)
Lasts-run lasts_ret rs lt = λ e. cc
Lasts-run (lasts_round h) [] lt = λ e. cc
Lasts-run (lasts_round h) (r ∷ rs) lt = Lasts-run (h r) rs (omega arith)
Lasts-run (lasts_call h) [] lt = λ e. cc
Lasts-run (lasts_call h) (r ∷ rs) lt = Lasts-run (h r) rs (omega arith)
Lasts-run (lasts_print h) rs lt = Lasts-run h rs lt
Lasts-run (lasts_if {b = true} hp hq) rs lt = Lasts-run hp rs lt
Lasts-run (lasts_if {b = false} hp hq) rs lt = Lasts-run hq rs lt
Lasts-run lasts_fault rs lt = λ e. cc

-- fewer replies
module _ {ℓ} {A : Type ℓ} where
  Lasts-suc : {p : Prog A} {n : ℕ} → Lasts p (suc n) → Lasts p n
  Lasts-suc {n = zero} h = lasts_none
  Lasts-suc {n = suc n} lasts_ret = lasts_ret
  Lasts-suc {n = suc n} (lasts_round h) = lasts_round (λ r. Lasts-suc (h r))
  Lasts-suc {n = suc n} (lasts_call h) = lasts_call (λ r. Lasts-suc (h r))
  Lasts-suc {n = suc n} (lasts_print h) = lasts_print (Lasts-suc h)
  Lasts-suc {n = suc n} (lasts_if hp hq) = lasts_if (Lasts-suc hp) (Lasts-suc hq)
  Lasts-suc {n = suc n} lasts_fault = lasts_fault

module _ {ℓ κ} {A : Type ℓ} {B : Type κ} where
  pub Lasts-bind :
      {n : ℕ} (p : Prog A) (f : A → Prog B)
      → Lasts p n
      → ((a : A) → Lasts (f a) n)
      → Lasts (p >>= f) n
  Lasts-bind p f lasts_none g = lasts_none
  Lasts-bind p f lasts_ret g = g _
  Lasts-bind p f (lasts_round h) g = lasts_round (λ r. Lasts-bind _ f (h r) (λ a. Lasts-suc (g a)))
  Lasts-bind p f (lasts_call h) g = lasts_call (λ r. Lasts-bind _ f (h r) g)
  Lasts-bind p f (lasts_print h) g = lasts_print (Lasts-bind _ f h g)
  Lasts-bind p f (lasts_if hp hq) g = lasts_if (Lasts-bind _ f hp g) (Lasts-bind _ f hq g)
  Lasts-bind p f lasts_fault g = lasts_fault

pub ruleset lasts_rules =
    (lasts_none, lasts_ret, lasts_print, lasts_if, lasts_fault, lasts_round, lasts_call)
