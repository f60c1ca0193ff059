-- ===== src/Pipes/Pipeline.antt =====
-- Example 3 of pipes_ipc.c as a whole: what the three processes do to the text between them.
pub mod Squares
use linux_system_programming.Base.{
  ℕ, zero, suc, ℤ, pos, fits_int, ==ℤ_self, is_zero, ◌≡◌, refl, subst, ◌∙◌, ap, ◌≤◌, ◌<◌, ◌*◌, true,
  false, not, String, List, [], ◌∷◌, ◌++◌, map, append-nil, append_assoc, length, drop, arith,
}
use linux_system_programming.Posix.{
  printed_lines, require, Libc, Arg, Line, out, num, text, Reply, Prog, ret, ◌>>=◌, ◌>>◌, int,
  c_string, run, returned, ask, close, wait, fclose, fprintf, before, did,
}
use linux_system_programming.Pipes.{
  write_numbers, generate_numbers, write_square, square_lines, square_streams, square_numbers,
  print_lines, print_stream, print_results,
}
use linux_system_programming.Pipes.Lines.{
  is_line, AreLines, concat, written, IsFed, is_line-c_string, lines_unique,
}
use linux_system_programming.Pipes.Pipeline.Squares.{
  number_line, square_line, numbers, IsReadable, result_line, AllReadable, generate_numbers-written,
  square_numbers-written,
}

print_lines-printed :
    (ls : List (List ℕ)) (rounds : ℕ) (fp : ℤ) (rs : List Reply)
    → AreLines ls
    → length ls < rounds
    → IsFed 0 3 ls rs
    → let r =
        run
          (do
            print_lines rounds fp
            int (ask (fclose fp))
            int (ask wait)
            int (ask wait)
            ret (pos 0))
          rs in
      (r.outcome ≡ returned (pos 0)) × (printed_lines r.events ≡ map result_line ls)
unfolding print_lines run
print_lines-printed ls zero fp rs a lt f = absurd (omega arith)
print_lines-printed ls (suc rounds) fp [] a lt f = absurd f
print_lines-printed [] (suc rounds) fp (r ∷ []) a lt f = absurd (omega (arith, f.1))
print_lines-printed [] (suc rounds) fp (r ∷ r1 ∷ []) a lt f = absurd (omega (arith, f.1))
print_lines-printed [] (suc rounds) fp (r ∷ r1 ∷ r2 ∷ []) a lt f = absurd (omega (arith, f.1))
print_lines-printed [] (suc rounds) fp (r ∷ r1 ∷ r2 ∷ r3 ∷ rs) a lt f = rw f.0 (refl, refl)
print_lines-printed (l ∷ ls) (suc rounds) fp (r ∷ rs) a lt f =
    let h = print_lines-printed ls rounds fp rs a.1 (omega arith) f.3 in
    let e = ap c_string f.1 ∙ is_line-c_string l a.0 in
    rw (f.0, e) (h.0, ap (λ t. result_line l ∷ t) h.1)

print_results-printed :
    (ls : List (List ℕ)) (rounds : ℕ) (pipe1 pipe2 : ℤ × ℤ) (r1 r2 r3 fp : Reply) (rs : List Reply)
    → is_zero fp.value ≡ false
    → AreLines ls
    → length ls < rounds
    → IsFed 0 3 ls rs
    → let r = run (print_results rounds pipe1 pipe2) (r1 ∷ r2 ∷ r3 ∷ fp ∷ rs) in
      (r.outcome ≡ returned (pos 0)) × (printed_lines r.events ≡ map result_line ls)
unfolding print_results print_stream run
print_results-printed ls rounds pipe1 pipe2 r1 r2 r3 fp rs z a lt f =
    rw z (print_lines-printed ls rounds fp.value rs a lt f)

abbrev pub one_to_five : List ℕ
one_to_five = 1 ∷ 2 ∷ 3 ∷ 4 ∷ 5 ∷ []

module _ (libc : Libc) (format : String → List Arg → List ℕ) where
  are_numbers : (ns : List ℕ) → AllReadable libc format ns → AreLines (map (number_line format) ns)
  are_numbers [] a = tt
  are_numbers (n ∷ ns) a = (a.0.0, are_numbers ns a.2)

  are_squares : (ns : List ℕ) → AllReadable libc format ns → AreLines (map (square_line format) ns)
  are_squares [] a = tt
  are_squares (n ∷ ns) a = (a.0.1, are_squares ns a.2)

  all_readable :
      ((n : ℕ) → 1 ≤ n → n ≤ 5 → IsReadable libc format n) → AllReadable libc format one_to_five
  all_readable h = (
    h 1 (omega arith) (omega arith),
    refl,
    (
      h 2 (omega arith) (omega arith),
      refl,
      (
        h 3 (omega arith) (omega arith),
        refl,
        (h 4 (omega arith) (omega arith), refl, (h 5 (omega arith) (omega arith), refl, tt)),
      ),
    ),
  )

-- The text of the first child reaches the second in some lines, and the text of the second reaches the
-- parent in some lines: each process has a history of replies, in which all of its calls are answered and
-- `fgets` gives it these lines and then NULL, and no
-- `fdopen` fails. Where `format` and `atoi` agree on the numbers 1 to 5, with
-- more than five rounds the two readers return 0, and the parent prints the squares of 1 to 5 in order.
pub pipeline-squares :
    (libc : Libc) (format : String → List Arg → List ℕ)
    → (readable : (n : ℕ) → 1 ≤ n → n ≤ 5 → IsReadable libc format n) → (rounds : ℕ) → 5 < rounds
    → (pipe1 pipe2 : ℤ × ℤ) (first : List Reply) → 7 ≤ length first
    → (r1 r2 in_2 out_2 : Reply) (second : List Reply) (lines_2 : List (List ℕ))
    → is_zero in_2.value ≡ false
    → is_zero out_2.value ≡ false
    → AreLines lines_2
    → concat lines_2 ≡ written format pipe1.1 (run (generate_numbers pipe1) first).events
    → IsFed 1 2 lines_2 second
    → (r3 r4 r5 in_3 : Reply) (parent : List Reply) (lines_3 : List (List ℕ))
    → is_zero in_3.value ≡ false
    → AreLines lines_3
    → concat lines_3
      ≡ written format out_2.value
          (run (square_numbers libc rounds pipe1 pipe2) (r1 ∷ r2 ∷ in_2 ∷ out_2 ∷ second)).events
    → IsFed 0 3 lines_3 parent
    → ((run (square_numbers libc rounds pipe1 pipe2) (r1 ∷ r2 ∷ in_2 ∷ out_2 ∷ second)).outcome
        ≡ returned (pos 0))
      × ((run (print_results rounds pipe1 pipe2) (r3 ∷ r4 ∷ r5 ∷ in_3 ∷ parent)).outcome
          ≡ returned (pos 0))
      × (printed_lines
            (run (print_results rounds pipe1 pipe2) (r3 ∷ r4 ∷ r5 ∷ in_3 ∷ parent)).events
          ≡ map (λ n. result_line (square_line format n)) one_to_five)
pipeline-squares libc format readable rounds enough pipe1 pipe2 first answered r1 r2 in_2 out_2
      second lines_2 z2 z2' are_2 e_2 fed_2 r3 r4 r5 in_3 parent lines_3 z3 are_3 e_3 fed_3 =
    let wrote = generate_numbers-written format pipe1 first answered in
    let fives = all_readable libc format readable in
    let l2 : lines_2 ≡ map (number_line format) one_to_five =
      lines_unique lines_2 _ are_2 (are_numbers libc format one_to_five fives) (e_2 ∙ wrote) in
    let s =
      square_numbers-written libc format one_to_five rounds pipe1 pipe2 r1 r2 in_2 out_2 second z2
        z2' fives enough (subst (λ ls. IsFed 1 2 ls second) l2 fed_2) in
    let l3 : lines_3 ≡ map (square_line format) one_to_five =
      lines_unique lines_3 _ are_3 (are_squares libc format one_to_five fives) (e_3 ∙ s.1) in
    let p =
      print_results-printed lines_3 rounds pipe1 pipe2 r3 r4 r5 in_3 parent z3 are_3
        (omega (arith, ap length l3, enough)) fed_3 in
    (s.0, p.0, p.1 ∙ ap (map result_line) l3)
