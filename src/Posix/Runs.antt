-- ===== src/Posix/Runs.antt =====
-- A run of a program against a finite history of replies.
use linux_system_programming.Base.{ℕ, true, false, List, [], ◌∷◌}
use linux_system_programming.Posix.Calls.{Call, Reply, IsLawful}
use linux_system_programming.Posix.Programs.{
  Prog, Line, ret, call, print, fault, spent, if◌then◌else◌,
}

pub data Event : Type 0 where
  did : Call → Reply → Event
  -- the call that has no reply yet
  waits : Call → Event
  printed : Line → Event

pub data Outcome {ℓ} (A : Type ℓ) : Type ℓ where
  returned : A → Outcome A
  blocked : Outcome A
  faulted : Outcome A
  cut : Outcome A

pub record Run {ℓ} (A : Type ℓ) : Type ℓ where
  pub events : List Event
  pub outcome : Outcome A

abbrev pub before {ℓ} : {A : Type ℓ} → Event → Run A → Run A
before e r = record { events = e ∷ r.events; outcome = r.outcome }

unfoldable pub run {ℓ} : {A : Type ℓ} → Prog A → List Reply → Run A
run (ret a) rs = record { events = []; outcome = returned a }
run (call c k) [] = record { events = waits c ∷ []; outcome = blocked }
run (call c k) (r ∷ rs) = before (did c r) (run (k r) rs)
run (print l p) rs = before (printed l) (run p rs)
run (if b then p else q) rs = elim b [ true ↦ run p rs | false ↦ run q rs ]
run fault rs = record { events = []; outcome = faulted }
run spent rs = record { events = []; outcome = cut }

-- Every reply is one that the documentation of its call allows.
abbrev pub AllLawful : ℕ → List Event → Type 0
AllLawful limit [] = Unit
AllLawful limit (did c r ∷ es) = IsLawful limit c r × AllLawful limit es
AllLawful limit (waits c ∷ es) = AllLawful limit es
AllLawful limit (printed l ∷ es) = AllLawful limit es

-- The lines that a trace prints.
abbrev pub printed_lines : List Event → List Line
printed_lines [] = []
printed_lines (printed l ∷ es) = l ∷ printed_lines es
printed_lines (did c r ∷ es) = printed_lines es
printed_lines (waits c ∷ es) = printed_lines es
