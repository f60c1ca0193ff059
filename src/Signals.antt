-- ===== src/Signals.antt =====
-- signal_handling.c: three signal handlers that run between any two steps of the main loop.
pub mod Safety
pub mod Exit
mod Tests
use linux_system_programming.Base.{
  ℕ, ◌+◌, ◌-◌, ◌^◌, String, leb, ◌==◌, Bool, true, false, Option, none, some, List, [], ◌∷◌, ◌++◌,
  if◌then◌else◌,
}

-- The signals that `main` registers a handler for.
pub data Signal : Type 0 where
  sigint sigusr1 sigterm : Signal

-- Where `main` stands in its loop: before the test, in `sleep`, after the loop.
pub data Position : Type 0 where
  test asleep ended : Position

-- A line of output: its format and its number, if it has one.
pub record Line : Type 0 where
  pub format : String
  pub number : Option ℕ

pub record State : Type 0 where
  pub signal_count : ℕ
  pub should_exit : Bool
  pub counter : ℕ
  pub position : Position
  pub output : List Line

abbrev pub int_max : ℕ
int_max = 2 ^ 31 - 1

abbrev say : String → Option ℕ → State → State
say format number s = record s {
  output = s.output ++ record { format = format; number = number } ∷ [];
}

-- `x++` on an `int`; `none` is the overflow, which is undefined behaviour.
abbrev pub increment : ℕ → Option ℕ
increment x = if x == int_max then none else some (x + 1)

unfoldable pub sigint_handler : State → Option State
sigint_handler s = elim (increment s.signal_count) [
  | none ↦ none
  | some n ↦
      let s' = say "\nReceived SIGINT (%d times)\n" (some n) (record s { signal_count = n }) in
      if leb 3 n
      then some (record (say "Exiting after 3 interrupts\n" none s') { should_exit = true })
      else some s'
]

unfoldable pub sigusr1_handler : State → Option State
sigusr1_handler s = some (say "Received SIGUSR1 - User-defined signal\n" none s)

unfoldable pub sigterm_handler : State → Option State
sigterm_handler s =
    some (record (say "Received SIGTERM - Terminating gracefully\n" none s) { should_exit = true })

-- The handlers that the three calls of `sigaction` install.
unfoldable pub deliver : Signal → State → Option State
unfolding sigint_handler sigusr1_handler sigterm_handler
deliver sigint s = sigint_handler s
deliver sigusr1 s = sigusr1_handler s
deliver sigterm s = sigterm_handler s

-- One step of `main`: the loop's test; or waking up, counting and printing.
advance_at : Position → State → Option State
advance_at test s =
    if s.should_exit
    then some (record (say "Program exiting\n" none s) { position = ended })
    else some (record s { position = asleep })
advance_at asleep s = elim (increment s.counter) [
  | none ↦ none
  | some n ↦
      some (say "Working... [%d seconds]\n" (some n) (record s { counter = n; position = test }))
]
advance_at ended s = some s

unfoldable pub advance : State → Option State
unfolding advance_at
advance s = advance_at s.position s

-- What happens next: a signal is delivered, or `main` goes on.
pub data Event : Type 0 where
  signal : Signal → Event
  go : Event

react : Position → Event → State → Option State
react ended e s = some s
react _ (signal x) s = deliver x s
react _ go s = advance s

-- Once `main` has returned, nothing is left that a signal could reach.
unfoldable pub step : Event → State → Option State
unfolding react deliver advance
step e s = react s.position e s

unfoldable pub steps : List Event → State → Option State
steps [] s = some s
steps (e ∷ es) s = elim (step e s) [ none ↦ none | some t ↦ steps es t ]

-- after the handlers are registered and the first lines printed
abbrev pub init : State
init = record { signal_count = 0; should_exit = false; counter = 0; position = test; output = [] }
