-- ===== src/SystemInfo/Printing.antt =====
-- What system_info.c prints, and that it ends.
use linux_system_programming.Base.{
  ℕ, zero, suc, pos, ℤ, ◌≡◌, refl, ap, ◌∙◌, ◌≤◌, ◌+◌, ltb, true, false, String, Option, List, [],
  ◌∷◌, map, take, length, arith, is_zero,
}
use linux_system_programming.Posix.{
  Libc, out, text, Reply, Event, printed, run, before, returned, Call, ask, time, stat, AllAnswered,
  Returns, Returns-run, Returns-bind, returns_rules, returns_ret, returns_if, returns_print,
  returns_call, Returns-check,
}
use linux_system_programming.SystemInfo.{
  is_some, process_information, user_information, print_environment, environment_variables,
  directory_information, file_descriptors, system_limits, time_information, file_statistics,
  system_main,
}

-- the line that is printed for a variable
abbrev pub variable_line : List ℕ → Event
variable_line v = printed (out "  %s\n" (text v ∷ []))

print_environment-from :
    (environ : List (List ℕ)) (count left : ℕ) (rs : List Reply)
    → count + left ≡ 10
    → run (print_environment environ count) rs
      ≡ record { events = map variable_line (take left environ); outcome = returned tt }
unfolding print_environment run
print_environment-from [] count zero rs e = refl
print_environment-from [] count (suc left) rs e = refl
print_environment-from (v ∷ env) count zero rs e =
    let full : ltb count 10 ≡ false = ground arith in rw full refl
print_environment-from (v ∷ env) count (suc left) rs e =
    let room : ltb count 10 ≡ true = ground arith in
    rw room
      (ap (before (variable_line v)) (print_environment-from env (suc count) left rs (omega arith)))

-- The loop prints the first ten variables of the environment in their order, all of them where there
-- are fewer, and makes no call.
pub print_environment-take :
    (environ : List (List ℕ)) (rs : List Reply)
    → run (print_environment environ 0) rs
      ≡ record { events = map variable_line (take 10 environ); outcome = returned tt }
print_environment-take environ rs = print_environment-from environ 0 10 rs refl

abbrev AnyUnit : Unit {0} → Type 0
AnyUnit _ = Unit

abbrev IsZero : ℤ → Type 0
IsZero n = n ≡ pos 0

-- The clock and the file's time are such that `ctime` can show them; all else is arbitrary.
abbrev pub IsShown : Libc → Call → Reply → Type 0
IsShown libc (ask time) r = is_some (libc.ctime r.value) ≡ true
IsShown libc (ask (stat path)) r =
    is_zero r.value ≡ true → is_some (libc.ctime r.status.st_mtime) ≡ true
IsShown libc _ r = Unit

module _ (libc : Libc) where
  print_environment-Returns :
      (environ : List (List ℕ)) (count : ℕ)
      → Returns (IsShown libc) AnyUnit (print_environment environ count) 0
  unfolding print_environment
  print_environment-Returns [] count = returns_ret tt
  print_environment-Returns (v ∷ env) count =
      returns_if (λ _. returns_print (print_environment-Returns env (suc count)))
        (λ _. returns_ret tt)

  process_information-Returns : Returns (IsShown libc) AnyUnit process_information 4
  unfolding process_information
  process_information-Returns = search returns_rules depth 30

  user_information-Returns : Returns (IsShown libc) AnyUnit user_information 8
  unfolding user_information
  user_information-Returns = returns_print (
      returns_call λ _ _. returns_print (
        returns_call λ _ _. returns_print (
          returns_call λ _ _. returns_print (
            returns_call λ _ _. returns_print (
              returns_call λ _ _. returns_call λ pw _.
                returns_if
                  (λ e. Returns-check e (
                    returns_print (
                      Returns-check e (
                        returns_print
                          (Returns-check e (returns_print (search returns_rules depth 40)))))))
                  (λ _. search returns_rules depth 40))))))

  environment_variables-Returns :
      (getenv : String → Option (List ℕ)) (environ : List (List ℕ))
      → Returns (IsShown libc) AnyUnit (environment_variables getenv environ) 0
  unfolding environment_variables
  environment_variables-Returns getenv environ =
      search (returns_rules, print_environment-Returns) depth 30

  directory_information-Returns : Returns (IsShown libc) AnyUnit (directory_information libc) 1
  unfolding directory_information
  directory_information-Returns = search returns_rules depth 30

  file_descriptors-Returns : Returns (IsShown libc) AnyUnit (file_descriptors libc) 0
  unfolding file_descriptors
  file_descriptors-Returns = search returns_rules depth 30

  system_limits-Returns : Returns (IsShown libc) AnyUnit (system_limits libc) 3
  unfolding system_limits
  system_limits-Returns = search returns_rules depth 30

  time_information-Returns : Returns (IsShown libc) AnyUnit (time_information libc) 1
  unfolding time_information
  time_information-Returns = search returns_rules depth 30

  file_statistics-Returns :
      (program : List ℕ) → Returns (IsShown libc) AnyUnit (file_statistics libc program) 1
  unfolding file_statistics
  file_statistics-Returns program = search returns_rules depth 30

  system_main-Returns :
      (getenv : String → Option (List ℕ)) (environ : List (List ℕ)) (program : List ℕ)
      → Returns (IsShown libc) IsZero (system_main libc getenv environ program) 18
  unfolding system_main
  system_main-Returns getenv environ program = Returns-bind _ _ process_information-Returns λ _ _.
      Returns-bind _ _ user_information-Returns λ _ _.
        Returns-bind _ _ (environment_variables-Returns getenv environ) λ _ _.
          Returns-bind _ _ directory_information-Returns λ _ _.
            Returns-bind _ _ file_descriptors-Returns λ _ _.
              Returns-bind _ _ system_limits-Returns λ _ _.
                Returns-bind _ _ time_information-Returns
                  λ _ _. Returns-bind _ _ (file_statistics-Returns program) λ _ _. returns_ret refl

-- With eighteen answers, where the clock and the time of the program's file are such that `ctime` can
-- show them, `main` returns 0, whatever else the system answers and whichever calls fail: it reads
-- nothing through a NULL from `getpwuid` or `getgrgid`, no directory that `getcwd` did not write, and
-- nothing of a `struct stat`
-- that was not written.
pub system_main-returns :
    (libc : Libc) (getenv : String → Option (List ℕ)) (environ : List (List ℕ)) (program : List ℕ)
    → (rs : List Reply) → 18 ≤ length rs
    → AllAnswered (IsShown libc) (run (system_main libc getenv environ program) rs).events
    → (run (system_main libc getenv environ program) rs).outcome ≡ returned (pos 0)
system_main-returns libc getenv environ program rs le l =
    let r = Returns-run (system_main-Returns libc getenv environ program) rs le l in
    r.1 ∙ ap returned r.2
