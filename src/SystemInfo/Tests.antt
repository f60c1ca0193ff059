-- ===== src/SystemInfo/Tests.antt =====
-- Runs of the system information program: a system that fails each call, and short environments.
use linux_system_programming.Base.{
  ℕ, pos, ◌≡◌, String, Option, some, List, [], ◌∷◌, codes, replicate, arith, refl, ◌++◌,
}
use linux_system_programming.Posix.{Reply, run, returned}
use linux_system_programming.Socket.Sample.{sample, failed, gives}
use linux_system_programming.SystemInfo.{
  process_information, user_information, print_environment, environment_variables,
  directory_information, file_descriptors, system_limits, time_information, file_statistics,
  system_main,
}
use linux_system_programming.SystemInfo.Printing.{
  variable_line, print_environment-take, system_main-returns,
}

abbrev the_same : String → Option (List ℕ)
the_same name = some (codes name)

abbrev variables : List (List ℕ)
variables = codes "HOME=/root" ∷ codes "TERM=linux" ∷ []

abbrev all_fail : List Reply
all_fail = replicate 18 (failed (pos 1))

print_environment-take_example : run (print_environment variables 0) [] ≡ record {
  events = variable_line (codes "HOME=/root") ∷ variable_line (codes "TERM=linux") ∷ [];
  outcome = returned tt;
}
print_environment-take_example = print_environment-take variables []

-- the system knows the user, the group has no name, and the file can be asked about
abbrev all_answer : List Reply
all_answer =
    replicate 9 (gives (pos 7)) ++ failed (pos 2) ∷ (gives (pos 0) ∷ replicate 7 (gives (pos 0)))

-- each call fails
failures :
    (run (system_main sample the_same variables (codes "./system_info")) all_fail).outcome
    ≡ returned (pos 0)
unfolding run process_information user_information print_environment environment_variables
    directory_information file_descriptors system_limits time_information file_statistics
    system_main
failures = refl

system_main-returns_example :
    (run (system_main sample the_same variables (codes "./system_info")) all_answer).outcome
    ≡ returned (pos 0)
unfolding run process_information user_information print_environment environment_variables
    directory_information file_descriptors system_limits time_information file_statistics
    system_main
system_main-returns_example =
    system_main-returns sample the_same variables (codes "./system_info") all_answer (omega arith)
      (ground arith)
