-- ===== src/Signals/Tests.antt =====
-- Runs of the signal program: three interrupts, and a termination signal during the sleep.
use linux_system_programming.Base.{◌≡◌, ◌≢◌, refl, true, none, some, List, [], ◌∷◌, arith}
use linux_system_programming.Signals.{
  ended, asleep, sigint, sigterm, State, Line, Event, signal, go, step, steps, init,
}
use linux_system_programming.Signals.Safety.{IsConsistent, steps-IsConsistent, steps-ne-none}
use linux_system_programming.Signals.Exit.{steps-ended}

abbrev line_1 : Line
line_1 = record { format = "\nReceived SIGINT (%d times)\n"; number = some 1 }

abbrev line_2 : Line
line_2 = record { format = "Received SIGTERM - Terminating gracefully\n"; number = none }

abbrev line_3 : Line
line_3 = record { format = "Working... [%d seconds]\n"; number = some 1 }

abbrev line_4 : Line
line_4 = record { format = "Program exiting\n"; number = none }

abbrev told : State
told = record {
  signal_count = 1;
  should_exit = true;
  counter = 0;
  position = asleep;
  output = line_1 ∷ line_2 ∷ [];
}

abbrev done : State
done = record told {
  counter = 1;
  position = ended;
  output = line_1 ∷ line_2 ∷ line_3 ∷ line_4 ∷ [];
}

abbrev interrupts : List Event
interrupts = signal sigint ∷ go ∷ signal sigint ∷ go ∷ signal sigint ∷ []

steps-IsConsistent_example : IsConsistent 1 1 done
unfolding steps step
steps-IsConsistent_example =
    steps-IsConsistent (go ∷ signal sigint ∷ signal sigterm ∷ go ∷ go ∷ []) done refl

steps-ended_example : done.position ≡ ended
unfolding steps step
steps-ended_example = steps-ended (go ∷ go ∷ []) told done refl (omega arith) refl

steps-ne-none_example : steps interrupts init ≢ none
steps-ne-none_example = steps-ne-none interrupts (omega arith)
