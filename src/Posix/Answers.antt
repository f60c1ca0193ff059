-- ===== src/Posix/Answers.antt =====
-- Programs that return on all answers of a kind, and how many answers they need.
use linux_system_programming.Base.{
  ℕ, zero, suc, ◌≤◌, ◌≡◌, refl, Bool, true, false, List, [], ◌∷◌, length, arith,
}
use linux_system_programming.Posix.Calls.{Call, Reply}
use linux_system_programming.Posix.Programs.{
  Line, Prog, ret, call, print, fault, if◌then◌else◌, ◌>>=◌,
}
use linux_system_programming.Posix.Runs.{Event, did, waits, printed, returned, run}

-- Every reply in a trace is one of the kind `L`.
abbrev pub AllAnswered : (Call → Reply → Type 0) → List Event → Type 0
AllAnswered L [] = Unit
AllAnswered L (did c r ∷ es) = L c r × AllAnswered L es
AllAnswered L (waits c ∷ es) = AllAnswered L es
AllAnswered L (printed l ∷ es) = AllAnswered L es

-- With `n` replies or more, all of the kind `L`, `p` returns a result in `Q`: there is no rule for `fault`.
pub data Returns {ℓ} {A : Type ℓ} (L : Call → Reply → Type 0) (Q : A → Type 0)
    : Prog A → ℕ → Type ℓ where
  returns_ret : {a : A} {n : ℕ} → Q a → Returns L Q (ret a) n
  returns_call :
      {c : Call} {k : Reply → Prog A} {n : ℕ}
      → ((r : Reply) → L c r → Returns L Q (k r) n)
      → Returns L Q (call c k) (suc n)
  returns_print : {l : Line} {p : Prog A} {n : ℕ} → Returns L Q p n → Returns L Q (print l p) n
  returns_if :
      {b : Bool} {p q : Prog A} {n : ℕ}
      → (b ≡ true → Returns L Q p n)
      → (b ≡ false → Returns L Q q n)
      → Returns L Q (if b then p else q) n

pub Returns-run {ℓ} :
    {A : Type ℓ} {L : Call → Reply → Type 0} {Q : A → Type 0} {p : Prog A} {n : ℕ}
    → Returns L Q p n
    → (rs : List Reply) → n ≤ length rs
    → AllAnswered L (run p rs).events
    → (a : A) × ((run p rs).outcome ≡ returned a) × Q a
unfolding run
Returns-run (returns_ret q) rs le l = (_, refl, q)
Returns-run (returns_call h) [] le l = absurd (omega arith)
Returns-run (returns_call h) (r ∷ rs) le l = Returns-run (h r l.0) rs (omega arith) l.1
Returns-run (returns_print h) rs le l = Returns-run h rs le l
Returns-run (returns_if {b = true} hp hq) rs le l = Returns-run (hp refl) rs le l
Returns-run (returns_if {b = false} hp hq) rs le l = Returns-run (hq refl) rs le l

-- a sum that computes by its first argument
abbrev more : ℕ → ℕ → ℕ
more zero n = n
more (suc m) n = suc (more m n)

module _ {ℓ} {A : Type ℓ} {L : Call → Reply → Type 0} {Q : A → Type 0} where
  Returns-suc : {p : Prog A} {n : ℕ} → Returns L Q p n → Returns L Q p (suc n)
  Returns-suc (returns_ret q) = returns_ret q
  Returns-suc (returns_call h) = returns_call (λ r l. Returns-suc (h r l))
  Returns-suc (returns_print h) = returns_print (Returns-suc h)
  Returns-suc (returns_if hp hq) = returns_if (λ e. Returns-suc (hp e)) (λ e. Returns-suc (hq e))

  Returns-add : {p : Prog A} (m : ℕ) {n : ℕ} → Returns L Q p n → Returns L Q p (more m n)
  Returns-add zero h = h
  Returns-add (suc m) h = Returns-suc (Returns-add m h)

  -- a check whose failure is undefined behaviour
  pub Returns-check :
      {b : Bool} {p : Prog A} {n : ℕ}
      → b ≡ true
      → Returns L Q p n
      → Returns L Q (if b then p else fault) n
  Returns-check e h = returns_if (λ _. h) (λ e'. cc)

module _ {ℓ κ} {A : Type ℓ} {B : Type κ} {L : Call → Reply → Type 0} where
  pub Returns-bind :
      {R : A → Type 0} {Q : B → Type 0} {m n : ℕ} (p : Prog A) (f : A → Prog B)
      → Returns L R p m
      → ((a : A) → R a → Returns L Q (f a) n)
      → Returns L Q (p >>= f) (more m n)
  Returns-bind {m = m} p f (returns_ret q) g = Returns-add m (g _ q)
  Returns-bind p f (returns_call h) g = returns_call (λ r l. Returns-bind _ f (h r l) g)
  Returns-bind p f (returns_print h) g = returns_print (Returns-bind _ f h g)
  Returns-bind p f (returns_if hp hq) g =
      returns_if (λ e. Returns-bind _ f (hp e) g) (λ e. Returns-bind _ f (hq e) g)

pub ruleset returns_rules = (returns_ret, returns_print, Returns-check, returns_if, returns_call)
