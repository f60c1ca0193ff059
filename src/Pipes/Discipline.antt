-- ===== src/Pipes/Discipline.antt =====
-- All processes of pipes_ipc.c against the discipline of pipes.
pub mod Loops
pub mod Steps
pub mod Talks
pub mod Stages
use linux_system_programming.Base.{
  ℕ, ℤ, pos, fails, ◌≡◌, refl, Bool, true, false, Option, none, some, List, length,
}
use linux_system_programming.Posix.{
  Libc, Reply, Safe, ret, safe_ret, safe_call, safe_print, safe_if, Safe-bind, Safe-Obeys,
  AllLawful, run, Obeys,
}
use linux_system_programming.Pipes.{
  pipeline, bidirectional_pipes, pipes_main, simple_parent, bidirectional_parent,
}
use linux_system_programming.Pipes.Ends.{Ends, pipe_ends}
use linux_system_programming.Pipes.Discipline.Steps.{
  at, with_streams, Safe-pipe_first, Safe-pipe_second,
}
use linux_system_programming.Pipes.Discipline.Talks.{
  Finished, simple_parent-Safe, simple_child-Safe, bidirectional_child-Safe,
  bidirectional_parent-Safe,
}
use linux_system_programming.Pipes.Discipline.Stages.{
  generate_numbers-Safe, square_numbers-Safe, print_results-Safe,
}

module _ (libc : Libc) {limit : ℕ} (rounds : ℕ) (array1 array2 : ℤ × ℤ) where
  pipeline-Safe :
      (x y : ℤ × ℤ) (u : Bool)
      → Safe limit
          (pipe_ends libc)
          Finished
          (pipeline libc rounds array1 array2)
          (some (with_streams (at x false false) (at y false false) none none u))
  unfolding pipeline
  pipeline-Safe x y u = safe_print (
      Safe-pipe_first libc x y (λ _. tt)
        λ p1 e1 ba.
          Safe-pipe_second libc p1.ends y (λ _. tt)
            λ p2 e2 apart.
              rw (e1, e2)
                (safe_call refl λ _ _.
                  safe_if (λ _. generate_numbers-Safe libc p1.ends p2.ends u)
                    (λ _. safe_call refl λ _ _.
                      safe_if (λ _. square_numbers-Safe libc p1.ends p2.ends rounds u ba apart)
                        (λ _. print_results-Safe libc p1.ends p2.ends rounds u apart))))

  bidirectional_pipes-Safe :
      (buffer : List ℕ) (x y : ℤ × ℤ) (u : Bool)
      → length buffer ≡ 256
      → Safe limit
          (pipe_ends libc)
          Finished
          (bidirectional_pipes libc rounds buffer array1 array2)
          (some (with_streams (at x false false) (at y false false) none none u))
  unfolding bidirectional_pipes
  bidirectional_pipes-Safe buffer x y u le = safe_print (
      Safe-pipe_first libc x y (λ _. tt)
        λ p e1 ba.
          safe_if (λ _. safe_print (safe_ret (λ e. absurd cc)))
            (λ _.
              Safe-pipe_second libc p.ends y (λ _. tt)
                λ q e2 apart.
                  safe_if (λ _. safe_print (safe_ret (λ e. absurd cc)))
                    (λ _. safe_call refl λ _ _.
                      safe_if
                        (λ _. bidirectional_child-Safe libc p.ends q.ends buffer u ba apart le)
                        (λ _.
                          Safe-bind (λ _. pipeline libc rounds array1 array2)
                            (bidirectional_parent-Safe libc p.ends q.ends buffer u ba apart le)
                            (λ _ t s. rw s.1 (pipeline-Safe p.ends q.ends s.0))))))

  pipes_main-Safe :
      (buffer : List ℕ) (x y : ℤ × ℤ)
      → length buffer ≡ 256
      → Safe limit
          (pipe_ends libc)
          Finished
          (pipes_main libc rounds buffer array1 array2)
          (some (with_streams (at x false false) (at y false false) none none false))
  unfolding pipes_main
  pipes_main-Safe buffer x y le = safe_print (
      Safe-pipe_first libc x y (λ _. tt)
        λ p e1 ba.
          safe_if (λ _. safe_print (safe_ret (λ e. absurd cc)))
            (λ _. safe_call refl λ _ _.
              safe_if (λ _. safe_print (safe_ret (λ e. absurd cc)))
                (λ _.
                  safe_if (λ _. simple_child-Safe libc p.ends y buffer false ba le)
                    (λ _.
                      Safe-bind (λ _. bidirectional_pipes libc rounds buffer array1 array2)
                        (simple_parent-Safe libc p.ends y false ba)
                        (λ _ t s. rw s.1 (bidirectional_pipes-Safe buffer p.ends y s.0 le))))))

-- no pipe is open
abbrev pub no_pipes : Option Ends
no_pipes =
    some
      (with_streams (at (pos 0, pos 0) false false) (at (pos 0, pos 0) false false) none none false)

-- Every run of `main`, of the first process or of a child, reads an end of a pipe only after the
-- process has closed its own writing end, and writes one only after it has closed the reading end,
-- so that the end of the text arrives; it closes only ends that are open, each of them once, and so
-- with streams. A process that ends with 0 has closed both ends of the first pipe and all streams.
-- No byte is written outside the buffer of 256 bytes, no stream that is NULL is used and no product
-- overflows, unless a read or an `fdopen` failed, or a line held a number whose square is no `int`.
-- Nothing is claimed after a `pipe` that failed, or that gave ends that are in use.
pub pipes_main-ends :
    (libc : Libc) (limit rounds : ℕ) (buffer : List ℕ) (array1 array2 : ℤ × ℤ) (rs : List Reply)
    → length buffer ≡ 256
    → AllLawful limit (run (pipes_main libc rounds buffer array1 array2) rs).events
    → Obeys
        (pipe_ends libc)
        no_pipes
        Finished
        (run (pipes_main libc rounds buffer array1 array2) rs)
pipes_main-ends libc limit rounds buffer array1 array2 rs le l =
    Safe-Obeys (pipe_ends libc)
      (pipes_main-Safe libc rounds array1 array2 buffer (pos 0, pos 0) (pos 0, pos 0) le) rs l
