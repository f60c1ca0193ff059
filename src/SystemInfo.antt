-- ===== src/SystemInfo.antt =====
-- system_info.c: what the system tells of a process, its user, its environment and the machine.
pub mod Printing
mod Tests
use linux_system_programming.Base.{
  ℕ, suc, ℤ, pos, is_zero, not, ltb, bit_and, String, Option, none, some, List, [], ◌∷◌, Bool, true,
  false,
}
use linux_system_programming.Posix.{
  Libc, Reply, FileStatus, Arg, num, text, lit, Prog, ret, fault, if◌then◌else◌, ◌>>=◌, ◌>>◌, sys,
  int, printf, c_string, ask, time, stat, getcwd, getpid, getppid, getpgid, getsid, getuid, geteuid,
  getgid, getegid, getpwuid, getgrgid, sysconf, sc_nprocessors_onln, sc_page_size,
}

-- What is read through the pointer that a call gave, or of the memory that it wrote to: where the
-- pointer is NULL, there is nothing, and the read is undefined.
abbrev pub through {ℓ} : {A : Type ℓ} → Reply → (Reply → A) → Prog A
through r field = if not (is_zero r.value) then ret (field r) else fault

-- The fields that `stat` wrote, which it does only where it gives 0.
abbrev pub status_of : Reply → Prog FileStatus
status_of r = if is_zero r.value then ret r.status else fault

abbrev pub is_some : Option (List ℕ) → Bool
is_some none = false
is_some (some s) = true

-- the text that `%s` prints, for which NULL is undefined
abbrev pub text_of : Option (List ℕ) → Prog (List ℕ)
text_of s = if is_some s then ret (elim s [ none ↦ [] | some bytes ↦ bytes ]) else fault

-- A call whose result is printed as a number.
abbrev show : String → Prog ℤ → Prog (Unit {0})
show format p = do n ← p; printf format (num n ∷ [])

unfoldable pub process_information : Prog (Unit {0})
process_information = do
  printf "=== Process Information ===\n" []
  show "Process ID (PID): %d\n" (int (ask getpid))
  show "Parent Process ID (PPID): %d\n" (int (ask getppid))
  show "Process Group ID: %d\n" (int (ask (getpgid (pos 0))))
  show "Session ID: %d\n" (int (ask (getsid (pos 0))))

unfoldable pub user_information : Prog (Unit {0})
user_information = do
  printf "\n=== User and Group Information ===\n" []
  show "Real UID: %d\n" (int (ask getuid))
  show "Effective UID: %d\n" (int (ask geteuid))
  show "Real GID: %d\n" (int (ask getgid))
  show "Effective GID: %d\n" (int (ask getegid))
  uid ← int (ask getuid)
  pw ← sys (ask (getpwuid uid))
  if not (is_zero pw.value)
      then (do
        name ← through pw (λ p. p.account.pw_name)
        printf "Username: %s\n" (text name ∷ [])
        home ← through pw (λ p. p.account.pw_dir)
        printf "User home: %s\n" (text home ∷ [])
        shell ← through pw (λ p. p.account.pw_shell)
        printf "User shell: %s\n" (text shell ∷ []))
      else ret tt
  gid ← int (ask getgid)
  gr ← sys (ask (getgrgid gid))
  if not (is_zero gr.value)
      then (do
        name ← through gr (λ p. p.account.pw_name)
        printf "Group name: %s\n" (text name ∷ []))
      else ret tt

-- `getenv(name) ? getenv(name) : "Not set"`
abbrev pub value_or_not_set : Option (List ℕ) → Arg
value_or_not_set none = lit "Not set"
value_or_not_set (some value) = text value

-- The loop over `environ`, which is an array that ends in NULL.
unfoldable pub print_environment : List (List ℕ) → ℕ → Prog (Unit {0})
print_environment [] count = ret tt
print_environment (variable ∷ env) count =
    if ltb count 10
    then (do printf "  %s\n" (text variable ∷ []); print_environment env (suc count))
    else ret tt

-- The environment of a process does not change while the program runs: `getenv` is a function.
unfoldable pub environment_variables : (String → Option (List ℕ)) → List (List ℕ) → Prog (Unit {0})
environment_variables getenv environ = do
  printf "\n=== Environment Variables ===\n" []
  printf "PATH: %s\n" (value_or_not_set (getenv "PATH") ∷ [])
  printf "HOME: %s\n" (value_or_not_set (getenv "HOME") ∷ [])
  printf "USER: %s\n" (value_or_not_set (getenv "USER") ∷ [])
  printf "\nAll environment variables (first 10):\n" []
  print_environment environ 0

module _ (libc : Libc) where
  open libc use {path_max, ctime}

  unfoldable pub directory_information : Prog (Unit {0})
  directory_information = do
    printf "\n=== Directory Information ===\n" []
    cwd ← sys (ask (getcwd path_max))
    if not (is_zero cwd.value)
        then (do
          bytes ← through cwd (λ c. c.bytes)
          printf "Current working directory: %s\n" (text (c_string bytes) ∷ []))
        else ret tt

  unfoldable pub file_descriptors : Prog (Unit {0})
  file_descriptors = do
    printf "\n=== File Descriptors ===\n" []
    printf "Standard input (stdin) FD: %d\n" (num (pos 0) ∷ [])
    printf "Standard output (stdout) FD: %d\n" (num (pos 1) ∷ [])
    printf "Standard error (stderr) FD: %d\n" (num (pos 2) ∷ [])

  unfoldable pub system_limits : Prog (Unit {0})
  system_limits = do
    printf "\n=== System Limits ===\n" []
    printf "Maximum path length: %d\n" (num (pos path_max) ∷ [])
    show "Maximum number of processes: %ld\n" (int (ask (sysconf sc_nprocessors_onln)))
    show "Page size: %ld bytes\n" (int (ask (sysconf sc_page_size)))
    show "Number of processors online: %ld\n" (int (ask (sysconf sc_nprocessors_onln)))

  unfoldable pub time_information : Prog (Unit {0})
  time_information = do
    printf "\n=== Time Information ===\n" []
    now ← int (ask time)
    printf "Current time (seconds since epoch): %ld\n" (num now ∷ [])
    shown ← text_of (ctime now)
    printf "Current time: %s" (text shown ∷ [])

  unfoldable pub file_statistics : List ℕ → Prog (Unit {0})
  file_statistics program = do
    printf "\n=== File Statistics (this program) ===\n" []
    st ← sys (ask (stat program))
    if is_zero st.value
        then (do
          status ← status_of st
          printf "File size: %ld bytes\n" (num (pos status.st_size) ∷ [])
          printf "Permissions: %o (octal)\n" (num (pos (bit_and status.st_mode 511)) ∷ [])
          printf "Owner UID: %d\n" (num status.st_uid ∷ [])
          printf "Owner GID: %d\n" (num status.st_gid ∷ [])
          shown ← text_of (ctime status.st_mtime)
          printf "Last modified: %s" (text shown ∷ [])
          printf "Number of hard links: %ld\n" (num (pos status.st_nlink) ∷ []))
        else ret tt

  -- `program` is `argv[0]`
  unfoldable pub system_main : (String → Option (List ℕ)) → List (List ℕ) → List ℕ → Prog ℤ
  system_main getenv environ program = do
    process_information
    user_information
    environment_variables getenv environ
    directory_information
    file_descriptors
    system_limits
    time_information
    file_statistics program
    ret (pos 0)
