-- ===== src/Process/Family.antt =====
-- Which process forks, waits and executes.
use linux_system_programming.Base.{
  ℕ, suc, ℤ, pos, is_zero, ◌≡◌, ltb, Bool, true, false, not, ◌&&◌, ◌≤◌, if◌then◌else◌,
}
use linux_system_programming.Posix
use linux_system_programming.Posix.{Call, ask, fork, wait, waitpid, execlp, Reply, Monitor}

-- The process that the run is of: whether it is a child, how often it went on as the parent of a `fork`
-- (a child: how often its parent did before), and how often it waited.
pub record Process : Type 0 where
  pub child : Bool
  pub forks : ℕ
  pub waits : ℕ

abbrev parent : ℕ → ℕ → Process
parent forks waits = record { child = false; forks = forks; waits = waits }

abbrev pub begun : Process
begun = parent 0 0

abbrev a_child : Process → Process
a_child s = record s { child = true }

-- Only a parent forks, and waits, at most once for each fork; only a child executes another program.
abbrev may : Process → Call → Bool
may s (ask fork) = not s.child
may s (ask wait) = not s.child && ltb s.waits s.forks
may s (ask (waitpid pid)) = not s.child && ltb s.waits s.forks
may s (ask (execlp args)) = s.child
may s _ = true

abbrev after : Process → Call → Reply → Process
after s (ask fork) r = if is_zero r.value then a_child s else record s { forks = suc s.forks }
after s (ask wait) r = record s { waits = suc s.waits }
after s (ask (waitpid pid)) r = record s { waits = suc s.waits }
after s _ r = s

abbrev pub family : Monitor
family = record { State = Process; allows = may; next = after; excuses = λ s. ⊥ }

-- How a process ends. A child has the forks its parent had gone on from: the first example's child none,
-- the one that executes a program one, a child of the loop two to four. The first process ends after
-- five forks and as many waits, or after the first fork failed.
pub data Ended : ℤ → Process → Type 0 where
  child_of_first : {s : Process} → s.child ≡ true → s.forks ≡ 0 → Ended (pos 42) s
  child_failed : {s : Process} → s.child ≡ true → s.forks ≡ 1 → Ended (pos 1) s
  child_of_loop : {s : Process} → s.child ≡ true → 2 ≤ s.forks → s.forks ≤ 4 → Ended (pos 0) s
  parent_done : Ended (pos 0) (parent 5 5)
  parent_failed : Ended (pos 1) (parent 1 0)
