-- ===== src/Pipes/Tests.antt =====
-- Runs of the pipe examples against concrete systems.
use linux_system_programming.Base.{
  ℕ, ℤ, zero, suc, pos, ◌+◌, ◌-◌, ◌*◌, ◌/◌, ◌%◌, ◌≡◌, ◌≤◌, refl, ltb, if◌then◌else◌, String, List,
  [], ◌∷◌, ◌++◌, codes, map, arith,
}
use linux_system_programming.Posix.{
  printed_lines, Libc, Arg, num, Reply, run, returned, Obeys, zeros,
}
use linux_system_programming.Socket.Sample.{sample, gives, brings}
use linux_system_programming.Pipes.{
  print_lines, pipes_main, simple_parent, bidirectional_pipes, bidirectional_parent, print_response,
  pipeline, print_stream, generate_numbers, write_numbers, square_numbers, square_lines,
  square_streams, write_square, print_results,
}
use linux_system_programming.Pipes.Ends.{pipe_ends}
use linux_system_programming.Pipes.Discipline.Talks.{Finished}
use linux_system_programming.Pipes.Discipline.{no_pipes, pipes_main-ends}
use linux_system_programming.Pipes.Pipeline.Squares.{
  number_line, square_line, result_line, IsReadable,
}
use linux_system_programming.Pipes.Pipeline.{one_to_five, pipeline-squares}

-- A number below 100 in decimal, and the number that a text begins with.
abbrev decimal : ℕ → List ℕ
decimal n = if ltb n 10 then (48 + n) ∷ [] else (48 + n / 10) ∷ (48 + n % 10) ∷ []

abbrev read_decimal : ℕ → List ℕ → ℕ
read_decimal n [] = n
read_decimal n (c ∷ rest) = if ltb c 48 then n else read_decimal (n * 10 + (c - 48)) rest

abbrev formats : String → List Arg → List ℕ
formats f (num (pos a) ∷ []) = decimal a ++ codes "\n"
formats f (num (pos a) ∷ num (pos b) ∷ []) =
    codes "Square of " ++ decimal a ++ codes " = " ++ decimal b ++ codes "\n"
formats f _ = []

abbrev reads : Libc
reads = record sample { atoi = λ s. pos (read_decimal 0 s) }

readable : (n : ℕ) → 1 ≤ n → n ≤ 5 → IsReadable reads formats n
readable zero a b = absurd (omega arith)
readable (suc zero) a b = (refl, refl, refl)
readable (suc (suc zero)) a b = (refl, refl, refl)
readable (suc (suc (suc zero))) a b = (refl, refl, refl)
readable (suc (suc (suc (suc zero)))) a b = (refl, refl, refl)
readable (suc (suc (suc (suc (suc zero))))) a b = (refl, refl, refl)
readable (suc (suc (suc (suc (suc (suc n)))))) a b = absurd (omega arith)

abbrev ok : Reply
ok = gives (pos 0)

abbrev seven : List Reply
seven = ok ∷ ok ∷ ok ∷ ok ∷ ok ∷ ok ∷ ok ∷ []

abbrev numbers : List (List ℕ)
numbers = map (number_line formats) one_to_five

abbrev squares : List (List ℕ)
squares = map (square_line formats) one_to_five

-- each line, and the answer to the call that is made for it; then the end and two more answers
abbrev lines_in : List (List ℕ) → List Reply
lines_in [] = ok ∷ ok ∷ ok ∷ []
lines_in (l ∷ ls) = brings l ∷ ok ∷ lines_in ls

abbrev lines_out : List (List ℕ) → List Reply
lines_out [] = ok ∷ ok ∷ ok ∷ ok ∷ []
lines_out (l ∷ ls) = brings l ∷ lines_out ls

abbrev file : ℕ → Reply
file n = gives (pos n)

pipeline-squares_example :
    ((run
        (square_numbers reads 6 (pos 3, pos 4) (pos 5, pos 6))
        (ok ∷ ok ∷ file 1000 ∷ file 2000 ∷ lines_in numbers)).outcome
      ≡ returned (pos 0))
    × ((run
          (print_results 6 (pos 3, pos 4) (pos 5, pos 6))
          (ok ∷ ok ∷ ok ∷ file 3000 ∷ lines_out squares)).outcome
        ≡ returned (pos 0))
    × (printed_lines
          (run
            (print_results 6 (pos 3, pos 4) (pos 5, pos 6))
            (ok ∷ ok ∷ ok ∷ file 3000 ∷ lines_out squares)).events
        ≡ map (λ n. result_line (square_line formats n)) one_to_five)
unfolding run generate_numbers write_numbers square_numbers square_streams square_lines write_square
pipeline-squares_example =
    pipeline-squares reads formats readable 6 (omega arith) (pos 3, pos 4) (pos 5, pos 6) seven
      (omega arith) ok ok (file 1000) (file 2000) (lines_in numbers) numbers refl refl
      (refl, (refl, (refl, (refl, (refl, tt))))) refl (ground arith) ok ok ok (file 3000)
      (lines_out squares) squares refl (refl, (refl, (refl, (refl, (refl, tt))))) refl
      (ground arith)

abbrev a_pipe : ℕ → Reply
a_pipe n = record ok { ends = (pos n, pos (suc n)) }

-- the first process, whose last pipe is empty
abbrev first_process : List Reply
first_process =
    a_pipe 3
    ∷ file 100
    ∷ ok
    ∷ ok
    ∷ ok
    ∷ ok
    ∷ a_pipe 3
    ∷ a_pipe 5
    ∷ file 101
    ∷ ok
    ∷ ok
    ∷ ok
    ∷ brings (codes "hi")
    ∷ ok
    ∷ ok
    ∷ ok
    ∷ a_pipe 3
    ∷ a_pipe 5
    ∷ file 102
    ∷ file 103
    ∷ ok
    ∷ ok
    ∷ ok
    ∷ file 1000
    ∷ ok
    ∷ ok
    ∷ ok
    ∷ ok
    ∷ []

abbrev no_ends : ℤ × ℤ
no_ends = (pos 0, pos 0)

first_process_status :
    (run (pipes_main reads 6 (zeros 256) no_ends no_ends) first_process).outcome ≡ returned (pos 0)
unfolding run pipes_main simple_parent bidirectional_pipes bidirectional_parent print_response
    pipeline print_results print_stream print_lines zeros
first_process_status = refl

pipes_main-ends_example :
    Obeys
      (pipe_ends reads)
      no_pipes
      Finished
      (run (pipes_main reads 6 (zeros 256) no_ends no_ends) first_process)
unfolding run pipes_main simple_parent bidirectional_pipes bidirectional_parent print_response
    pipeline print_results print_stream print_lines zeros
pipes_main-ends_example =
    pipes_main-ends reads 1024 6 (zeros 256) no_ends no_ends first_process refl (
      tt,
      (
        tt,
        (
          tt,
          (
            tt,
            (
              tt,
              (
                tt,
                (
                  tt,
                  (
                    tt,
                    (
                      tt,
                      (
                        tt,
                        (
                          tt,
                          (
                            tt,
                            (
                              (refl, omega arith, omega arith),
                              (
                                tt,
                                (
                                  tt,
                                  (
                                    tt,
                                    (
                                      tt,
                                      (
                                        tt,
                                        (
                                          tt,
                                          (
                                            tt,
                                            (
                                              tt,
                                              (
                                                tt,
                                                (tt, (tt, ((omega arith), (tt, (tt, (tt, tt)))))),
                                              ),
                                            ),
                                          ),
                                        ),
                                      ),
                                    ),
                                  ),
                                ),
                              ),
                            ),
                          ),
                        ),
                      ),
                    ),
                  ),
                ),
              ),
            ),
          ),
        ),
      ),
    )
