-- ===== src/Pipes.antt =====
-- pipes_ipc.c: three examples of processes that talk through pipes. All processes run the same tree:
-- where `fork` gives 0, what follows is the child's.
pub mod Lines
pub mod Pipeline
pub mod Ends
pub mod Discipline
mod Tests
use linux_system_programming.Base.{
  ℕ, zero, suc, ℤ, pos, fails, is_zero, positive, ◌*ℤ◌, fits_int, not, ◌&&◌, if◌then◌else◌, codes,
  List, [], ◌∷◌,
}
use linux_system_programming.Posix
use linux_system_programming.Posix.{
  Libc, num, text, Prog, ret, spent, ◌>>=◌, ◌>>◌, sys, int, printf, perror, require, fill, poke,
  c_string, ask, close, read, write, fork, wait, pipe, dprintf, fdopen, fgets, fprintf, fclose,
}

-- Example 1. `pipefd` is the pair of both ends, `buffer` the uninitialised local of 256 bytes.
unfoldable pub simple_child : ℤ × ℤ → List ℕ → Prog ℤ
simple_child pipefd buffer = do
  int (close pipefd.1)
  bytes_read ← sys (ask (read pipefd.0 255))
  Posix.if◌then◌else◌ (positive bytes_read.value)
      (do
        ended ← poke (fill buffer bytes_read.bytes) bytes_read.value 0
        printf "Child received: %s\n" (text (c_string ended) ∷ []))
      (ret tt)
  int (close pipefd.0)
  ret (pos 0)

unfoldable pub simple_parent : ℤ × ℤ → Prog (Unit {0})
simple_parent pipefd = do
  int (close pipefd.0)
  int (ask (write pipefd.1 (codes "Hello from parent!")))
  int (close pipefd.1)
  int (ask wait)
  ret tt

-- Example 2, from the read on and from its start. A read that fails gives -1, and `buffer[-1]` is
-- written.
unfoldable pub respond : ℤ × ℤ → ℤ × ℤ → List ℕ → Prog ℤ
respond pipe_p2c pipe_c2p buffer = do
  printf "Child received: %s\n" (text (c_string buffer) ∷ [])
  int (ask (write pipe_c2p.1 (codes "Message received, thank you!")))
  int (close pipe_p2c.0)
  int (close pipe_c2p.1)
  ret (pos 0)

unfoldable pub bidirectional_child : ℤ × ℤ → ℤ × ℤ → List ℕ → Prog ℤ
bidirectional_child pipe_p2c pipe_c2p buffer = do
  int (close pipe_p2c.1)
  int (close pipe_c2p.0)
  n ← sys (ask (read pipe_p2c.0 255))
  ended ← poke (fill buffer n.bytes) n.value 0
  respond pipe_p2c pipe_c2p ended

unfoldable pub print_response : ℤ × ℤ → ℤ × ℤ → List ℕ → Prog (Unit {0})
print_response pipe_p2c pipe_c2p buffer = do
  printf "Parent received: %s\n" (text (c_string buffer) ∷ [])
  int (close pipe_p2c.1)
  int (close pipe_c2p.0)
  int (ask wait)
  ret tt

unfoldable pub bidirectional_parent : ℤ × ℤ → ℤ × ℤ → List ℕ → Prog (Unit {0})
bidirectional_parent pipe_p2c pipe_c2p buffer = do
  int (close pipe_p2c.0)
  int (close pipe_c2p.1)
  int (ask (write pipe_p2c.1 (codes "Parent calling child")))
  n ← sys (ask (read pipe_c2p.0 255))
  ended ← poke (fill buffer n.bytes) n.value 0
  print_response pipe_p2c pipe_c2p ended

-- Example 3. The loop of the first child, which writes `left` numbers from `i` on, and the child.
unfoldable pub write_numbers : ℕ → ℕ → ℤ → Prog (Unit {0})
write_numbers zero i fd = ret tt
write_numbers (suc left) i fd = do
  int (ask (dprintf fd "%d\n" (num (pos i) ∷ [])))
  write_numbers left (suc i) fd

unfoldable pub generate_numbers : ℤ × ℤ → Prog ℤ
generate_numbers pipe1 = do
  int (close pipe1.0)
  write_numbers 5 1 pipe1.1
  int (close pipe1.1)
  ret (pos 0)

-- What the second child does with a number: a square outside the range of `int` is undefined, and so is
-- any use of a stream that is NULL.
unfoldable pub write_square : ℤ → ℤ → Prog (Unit {0})
write_square n wp = do
  require (not (is_zero wp) && fits_int (n *ℤ n))
  int (ask (fprintf wp "Square of %d = %d\n" (num n ∷ num (n *ℤ n) ∷ [])))
  ret tt

-- the loop of the second child, and the child
unfoldable pub square_lines : Libc → ℕ → ℤ → ℤ → Prog (Unit {0})
square_lines libc zero fp wp = spent
square_lines libc (suc rounds) fp wp = do
  line ← sys (ask (fgets 256 fp))
  Posix.if◌then◌else◌ (is_zero line.value) (ret tt)
      (do write_square (libc.atoi (c_string line.bytes)) wp; square_lines libc rounds fp wp)

unfoldable pub square_streams : Libc → ℕ → ℤ → ℤ → Prog ℤ
square_streams libc rounds fp wp = do
  require (not (is_zero fp))
  square_lines libc rounds fp wp
  int (ask (fclose fp))
  require (not (is_zero wp))
  int (ask (fclose wp))
  ret (pos 0)

unfoldable pub square_numbers : Libc → ℕ → ℤ × ℤ → ℤ × ℤ → Prog ℤ
square_numbers libc rounds pipe1 pipe2 = do
  int (close pipe1.1)
  int (close pipe2.0)
  fp ← int (ask (fdopen pipe1.0 "r"))
  wp ← int (ask (fdopen pipe2.1 "w"))
  square_streams libc rounds fp wp

-- The loop of the parent, and the parent.
unfoldable pub print_lines : ℕ → ℤ → Prog (Unit {0})
print_lines zero fp = spent
print_lines (suc rounds) fp = do
  line ← sys (ask (fgets 256 fp))
  Posix.if◌then◌else◌ (is_zero line.value) (ret tt)
      (do printf "Result: %s" (text (c_string line.bytes) ∷ []); print_lines rounds fp)

unfoldable pub print_stream : ℕ → ℤ → Prog ℤ
print_stream rounds fp = do
  require (not (is_zero fp))
  print_lines rounds fp
  int (ask (fclose fp))
  int (ask wait)
  int (ask wait)
  ret (pos 0)

unfoldable pub print_results : ℕ → ℤ × ℤ → ℤ × ℤ → Prog ℤ
print_results rounds pipe1 pipe2 = do
  int (close pipe1.0)
  int (close pipe1.1)
  int (close pipe2.1)
  fp ← int (ask (fdopen pipe2.0 "r"))
  print_stream rounds fp

-- What an array of two ends holds after a `pipe` whose result is not tested.
abbrev ends_or : ℤ × ℤ → ℤ → ℤ × ℤ → ℤ × ℤ
ends_or array result written = if fails result then array else written

-- `array1` and `array2` are the uninitialised arrays that the pipes are made in.
unfoldable pub pipeline : Libc → ℕ → ℤ × ℤ → ℤ × ℤ → Prog ℤ
pipeline libc rounds array1 array2 = do
  printf "\n=== Pipeline Simulation (processes chained with pipes) ===\n" []
  p1 ← sys (ask pipe)
  p2 ← sys (ask pipe)
  let pipe1 = ends_or array1 p1.value p1.ends
  let pipe2 = ends_or array2 p2.value p2.ends
  pid ← int (ask fork)
  Posix.if◌then◌else◌ (is_zero pid) (generate_numbers pipe1) (do
    second ← int (ask fork)
    Posix.if◌then◌else◌ (is_zero second) (square_numbers libc rounds pipe1 pipe2)
        (print_results rounds pipe1 pipe2))

unfoldable pub bidirectional_pipes : Libc → ℕ → List ℕ → ℤ × ℤ → ℤ × ℤ → Prog ℤ
bidirectional_pipes libc rounds buffer array1 array2 = do
  printf "\n=== Bidirectional Pipes Example ===\n" []
  p2c ← sys (ask pipe)
  Posix.if◌then◌else◌ (fails p2c.value) (do perror "pipe"; ret (pos 1))
      (do
        c2p ← sys (ask pipe)
        Posix.if◌then◌else◌ (fails c2p.value) (do perror "pipe"; ret (pos 1))
            (do
              pid ← int (ask fork)
              Posix.if◌then◌else◌ (is_zero pid) (bidirectional_child p2c.ends c2p.ends buffer) (do
                bidirectional_parent p2c.ends c2p.ends buffer
                pipeline libc rounds array1 array2)))

-- The result is the exit status of the process that the run is of.
unfoldable pub pipes_main : Libc → ℕ → List ℕ → ℤ × ℤ → ℤ × ℤ → Prog ℤ
pipes_main libc rounds buffer array1 array2 = do
  printf "=== Pipe Communication Example ===\n" []
  pipefd ← sys (ask pipe)
  Posix.if◌then◌else◌ (fails pipefd.value) (do perror "pipe"; ret (pos 1))
      (do
        pid ← int (ask fork)
        Posix.if◌then◌else◌ (fails pid) (do perror "fork"; ret (pos 1))
            (Posix.if◌then◌else◌ (is_zero pid) (simple_child pipefd.ends buffer)
              (do simple_parent pipefd.ends; bidirectional_pipes libc rounds buffer array1 array2)))
