-- ===== src/Posix/Monitors.antt =====
-- Monitors: what a trace of calls may do, and the proof rules by which all runs of a program obey.
use linux_system_programming.Base.{
  ℕ, Bool, true, false, ◌≡◌, refl, Option, none, some, List, [], ◌∷◌,
}
use linux_system_programming.Posix.Calls.{Call, Reply, IsLawful}
use linux_system_programming.Posix.Programs.{
  Prog, Line, ret, call, print, fault, spent, if◌then◌else◌, ◌>>=◌,
}
use linux_system_programming.Posix.Runs.{
  Event, did, waits, printed, Outcome, returned, faulted, Run, run, AllLawful,
}

-- `allows s c`: in state `s` the call `c` may be made; `next` is the state after its reply. `excuses s`:
-- a call that the program does not test has failed, and its behaviour may be undefined from here on.
pub record Monitor : Type 1 where
  pub State : Type 0
  pub allows : State → Call → Bool
  pub next : State → Call → Reply → State
  pub excuses : State → Type 0

-- The state after a trace, or `none` if the trace makes a call that is not allowed.
unfoldable pub watch : (M : Monitor) → M.State → List Event → Option M.State
watch M s [] = some s
watch M s (did c r ∷ es) = elim (M.allows s c) [ true ↦ watch M (M.next s c r) es | false ↦ none ]
watch M s (waits c ∷ es) = elim (M.allows s c) [ true ↦ watch M s es | false ↦ none ]
watch M s (printed l ∷ es) = watch M s es

abbrev Meets {ℓ} :
    {A : Type ℓ} (M : Monitor) → (A → M.State → Type 0) → Outcome A → M.State → Type 0
Meets M Q (returned a) s = Q a s
Meets M Q faulted s = M.excuses s
Meets M Q _ s = Unit

abbrev Judged {ℓ} :
    {A : Type ℓ} (M : Monitor) → (A → M.State → Type 0) → Outcome A → Option M.State → Type 0
Judged M Q o none = ⊥
Judged M Q o (some s) = Meets M Q o s

-- Every call of the run is allowed, the last, unanswered one too. The run does not fault, unless the
-- monitor excuses it, and where it returns, its result and the final state satisfy `Q`.
abbrev pub Obeys {ℓ} :
    {A : Type ℓ} (M : Monitor) → M.State → (A → M.State → Type 0) → Run A → Type 0
Obeys M s Q r = Judged M Q r.outcome (watch M s r.events)

-- All runs of `p` from `s` obey: a derivation with a rule for each node of the tree.
pub data Safe {ℓ} {A : Type ℓ} (limit : ℕ) (M : Monitor) (Q : A → M.State → Type 0)
    : Prog A → M.State → Type ℓ where
  safe_ret : {a : A} {s : M.State} → Q a s → Safe limit M Q (ret a) s
  safe_call :
      {c : Call} {k : Reply → Prog A} {s : M.State}
      → M.allows s c ≡ true
      → ((r : Reply) → IsLawful limit c r → Safe limit M Q (k r) (M.next s c r))
      → Safe limit M Q (call c k) s
  safe_print :
      {l : Line} {p : Prog A} {s : M.State} → Safe limit M Q p s → Safe limit M Q (print l p) s
  safe_if :
      {b : Bool} {p q : Prog A} {s : M.State}
      → (b ≡ true → Safe limit M Q p s)
      → (b ≡ false → Safe limit M Q q s)
      → Safe limit M Q (if b then p else q) s
  safe_spent : {s : M.State} → Safe limit M Q spent s
  safe_fault : {s : M.State} → M.excuses s → Safe limit M Q fault s

module _ {ℓ} {A : Type ℓ} {limit : ℕ} (M : Monitor) {Q : A → M.State → Type 0} where
  pub Safe-Obeys :
      {p : Prog A} {s : M.State}
      → Safe limit M Q p s
      → (rs : List Reply) → AllLawful limit (run p rs).events
      → Obeys M s Q (run p rs)
  unfolding run watch
  Safe-Obeys (safe_ret q) rs l = q
  Safe-Obeys (safe_call a h) [] l = rw a tt
  Safe-Obeys (safe_call a h) (r ∷ rs) l = rw a (Safe-Obeys (h r l.0) rs l.1)
  Safe-Obeys (safe_print h) rs l = Safe-Obeys h rs l
  Safe-Obeys (safe_if {b = true} hp hq) rs l = Safe-Obeys (hp refl) rs l
  Safe-Obeys (safe_if {b = false} hp hq) rs l = Safe-Obeys (hq refl) rs l
  Safe-Obeys safe_spent rs l = tt
  Safe-Obeys (safe_fault h) rs l = h

module _ {ℓ} {A : Type ℓ} {limit : ℕ} {M : Monitor} {Q : A → M.State → Type 0} where
  -- a check whose failure is undefined behaviour
  pub Safe-check :
      {b : Bool} {p : Prog A} {s : M.State}
      → b ≡ true
      → Safe limit M Q p s
      → Safe limit M Q (if b then p else fault) s
  Safe-check e hp = safe_if (λ _. hp) (λ e'. cc)

module _ {ℓ} {A : Type ℓ} {limit : ℕ} {M : Monitor} {Q R : A → M.State → Type 0} where
  pub Safe-weaken :
      {p : Prog A} {s : M.State}
      → Safe limit M Q p s
      → ((a : A) (t : M.State) → Q a t → R a t)
      → Safe limit M R p s
  Safe-weaken (safe_ret q) g = safe_ret (g _ _ q)
  Safe-weaken (safe_call a h) g = safe_call a (λ r l. Safe-weaken (h r l) g)
  Safe-weaken (safe_print h) g = safe_print (Safe-weaken h g)
  Safe-weaken (safe_if hp hq) g = safe_if (λ e. Safe-weaken (hp e) g) (λ e. Safe-weaken (hq e) g)
  Safe-weaken safe_spent g = safe_spent
  Safe-weaken (safe_fault h) g = safe_fault h

module _ {ℓ κ} {A : Type ℓ} {B : Type κ} {limit : ℕ} {M : Monitor} {Q : B → M.State → Type 0} where
  pub Safe-bind :
      {R : A → M.State → Type 0} {p : Prog A} (f : A → Prog B) {s : M.State}
      → Safe limit M R p s
      → ((a : A) (t : M.State) → R a t → Safe limit M Q (f a) t)
      → Safe limit M Q (p >>= f) s
  Safe-bind f (safe_ret q) g = g _ _ q
  Safe-bind f (safe_call a h) g = safe_call a (λ r l. Safe-bind f (h r l) g)
  Safe-bind f (safe_print h) g = safe_print (Safe-bind f h g)
  Safe-bind f (safe_if hp hq) g = safe_if (λ e. Safe-bind f (hp e) g) (λ e. Safe-bind f (hq e) g)
  Safe-bind f safe_spent g = safe_spent
  Safe-bind f (safe_fault h) g = safe_fault h
