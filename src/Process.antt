-- ===== src/Process.antt =====
-- process_management.c: `fork`, `exec` and `wait`. Parent and child run the same tree: where `fork` gives
-- 0, what follows is the child's.
pub mod Family
mod Tests
use linux_system_programming.Base.{
  ℕ, zero, suc, ℤ, pos, negsuc, is_zero, Bool, true, false, List, [], ◌∷◌,
}
use linux_system_programming.Posix.{
  Libc, num, Prog, ret, if◌then◌else◌, ◌>>=◌, ◌>>◌, sys, int, printf, perror, ask, getpid, getppid,
  fork, wait, waitpid, sleep, execlp,
}

-- `pid < 0`
abbrev pub negative : ℤ → Bool
negative (pos n) = false
negative (negsuc n) = true

-- the loop that waits for all children, and the end of `main`
unfoldable pub wait_children : ℕ → Prog ℤ
wait_children zero = do printf "All children completed\n" []; ret (pos 0)
wait_children (suc left) = do int (ask wait); wait_children left

-- The loop that makes children, `left` of them from number `i` on; a child leaves `main` by `exit(0)`.
unfoldable pub spawn_children : ℕ → ℕ → Prog ℤ
spawn_children zero i = wait_children 3
spawn_children (suc left) i = do
  child ← int (ask fork)
  if is_zero child
      then (do
        pid ← int (ask getpid)
        printf "Child #%d (PID: %d)\n" (num (pos i) ∷ num pid ∷ [])
        int (ask (sleep 1))
        ret (pos 0))
      else spawn_children left (suc i)

-- examples 3 and 4
unfoldable pub execute_program : Prog ℤ
execute_program = do
  printf "\n--- Executing external program ---\n" []
  pid ← int (ask fork)
  if is_zero pid
      then (do
        int (ask (execlp ("ls" ∷ "ls" ∷ "-la" ∷ "/tmp" ∷ [])))
        perror "execlp failed"
        ret (pos 1))
      else (do
        int (ask (waitpid pid))
        printf "\n--- Creating multiple children ---\n" []
        spawn_children 3 0)

-- The result is the exit status of the process that the run is of.
unfoldable pub process_main : Libc → Prog ℤ
process_main libc = do
  parent ← int (ask getpid)
  printf "Parent process ID: %d\n" (num parent ∷ [])
  pid ← int (ask fork)
  if negative pid
      then (do perror "fork failed"; ret (pos 1))
      else if is_zero pid
      then (do
        child ← int (ask getpid)
        printf "Child process ID: %d\n" (num child ∷ [])
        ppid ← int (ask getppid)
        printf "Child's parent process ID: %d\n" (num ppid ∷ [])
        int (ask (sleep 2))
        printf "Child process exiting\n" []
        ret (pos 42))
      else (do
        printf "Parent created child with PID: %d\n" (num pid ∷ [])
        child_pid ← sys (ask wait)
        if libc.wifexited child_pid.errno
            then (do
              printf "Child %d exited with status: %d\n"
                  (num child_pid.value ∷ num (libc.wexitstatus child_pid.errno) ∷ [])
              execute_program)
            else execute_program)
