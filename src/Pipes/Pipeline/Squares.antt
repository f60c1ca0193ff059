-- ===== src/Pipes/Pipeline/Squares.antt =====
-- The two children of the pipeline: the text that each writes.
use linux_system_programming.Base.{
  ℕ, zero, suc, ℤ, pos, fits_int, ==ℤ_self, is_zero, ◌≡◌, refl, ◌∙◌, ap, ◌≤◌, ◌<◌, ◌*◌, true, false,
  not, String, List, [], ◌∷◌, ◌++◌, map, append-nil, append_assoc, length, drop, arith,
}
use linux_system_programming.Posix.{
  require, Libc, Arg, Line, out, num, text, Reply, Prog, ret, ◌>>=◌, ◌>>◌, int, c_string, run,
  returned, ask, close, fclose, fprintf, before, did,
}
use linux_system_programming.Pipes.{
  write_numbers, generate_numbers, write_square, square_lines, square_streams, square_numbers,
}
use linux_system_programming.Pipes.Lines.{is_line, concat, written, IsFed, is_line-c_string}

-- The line for `n` of the first child, and of the second.
module _ (format : String → List Arg → List ℕ) where
  abbrev pub number_line : ℕ → List ℕ
  number_line n = format "%d\n" (num (pos n) ∷ [])

  abbrev pub square_line : ℕ → List ℕ
  square_line n = format "Square of %d = %d\n" (num (pos n) ∷ num (pos (n * n)) ∷ [])

  abbrev pub numbers : ℕ → ℕ → List (List ℕ)
  numbers zero i = []
  numbers (suc left) i = number_line i ∷ numbers left (suc i)

-- What is known of `format` and `atoi` at a number: both texts are lines, and `atoi` reads the first.
abbrev pub IsReadable : Libc → (String → List Arg → List ℕ) → ℕ → Type 0
IsReadable libc format n =
    (is_line (number_line format n) ≡ true)
    × (is_line (square_line format n) ≡ true)
    × (libc.atoi (number_line format n) ≡ pos n)

-- The text that the parent prints for a line.
abbrev pub result_line : List ℕ → Line
result_line l = out "Result: %s" (text l ∷ [])

module _ (format : String → List Arg → List ℕ) where
  write_numbers-written :
      (left i : ℕ) (fd : ℤ) (p : Prog ℤ) (rs : List Reply)
      → left ≤ length rs
      → written format fd (run (write_numbers left i fd >> p) rs).events
        ≡ concat (numbers format left i) ++ written format fd (run p (drop left rs)).events
  unfolding write_numbers run
  write_numbers-written zero i fd p rs le = refl
  write_numbers-written (suc left) i fd p [] le = absurd (omega arith)
  write_numbers-written (suc left) i fd p (r ∷ rs) le =
      rw (==ℤ_self fd, write_numbers-written left (suc i) fd p rs (omega arith), append_assoc)

  close-written :
      (fd x : ℤ) (rs : List Reply)
      → written format fd (run (do int (close x); ret (pos 0)) rs).events ≡ []
  unfolding run
  close-written fd x [] = refl
  close-written fd x (r ∷ rs) = refl

  pub generate_numbers-written :
      (pipe1 : ℤ × ℤ) (rs : List Reply)
      → 7 ≤ length rs
      → written format pipe1.1 (run (generate_numbers pipe1) rs).events
        ≡ concat (numbers format 5 1)
  unfolding generate_numbers run
  generate_numbers-written pipe1 [] le = absurd (omega arith)
  generate_numbers-written pipe1 (r ∷ rs) le = rw (
    write_numbers-written 5 1 pipe1.1 _ rs (omega arith),
    close-written pipe1.1 pipe1.1 (drop 5 rs),
    append-nil,
  )

write_square-run :
    (n : ℕ) (wp : ℤ) (w : Reply) (rs : List Reply) (p : Unit {0} → Prog (Unit {0}))
    (q : Unit {0} → Prog ℤ)
    → is_zero wp ≡ false
    → fits_int (pos (n * n)) ≡ true
    → run (write_square (pos n) wp >>= p >>= q) (w ∷ rs)
      ≡ before
          (did (ask (fprintf wp "Square of %d = %d\n" (num (pos n) ∷ num (pos (n * n)) ∷ []))) w)
          (run (p tt >>= q) rs)
unfolding write_square run
write_square-run n wp w rs p q z e = rw (z, e) refl

module _ (libc : Libc) (format : String → List Arg → List ℕ) where
  abbrev pub AllReadable : List ℕ → Type 0
  AllReadable [] = Unit
  AllReadable (n ∷ ns) = IsReadable libc format n × (fits_int (pos (n * n)) ≡ true) × AllReadable ns

  square_lines-written :
      (ns : List ℕ) (rounds : ℕ) (fp wp : ℤ) (rs : List Reply)
      → is_zero wp ≡ false
      → AllReadable ns
      → length ns < rounds
      → IsFed 1 2 (map (number_line format) ns) rs
      → let r =
          run
            (do
              square_lines libc rounds fp wp
              int (ask (fclose fp))
              require (not (is_zero wp))
              int (ask (fclose wp))
              ret (pos 0))
            rs in
        (r.outcome ≡ returned (pos 0))
        × (written format wp r.events ≡ concat (map (square_line format) ns))
  unfolding square_lines run
  square_lines-written ns zero fp wp rs z a lt f = absurd (omega arith)
  square_lines-written ns (suc rounds) fp wp [] z a lt f = absurd f
  square_lines-written [] (suc rounds) fp wp (r ∷ []) z a lt f = absurd (omega (arith, f.1))
  square_lines-written [] (suc rounds) fp wp (r ∷ r' ∷ []) z a lt f = absurd (omega (arith, f.1))
  square_lines-written [] (suc rounds) fp wp (r ∷ r' ∷ r'' ∷ rs) z a lt f = rw (f.0, z) (refl, refl)
  square_lines-written (n ∷ ns) (suc rounds) fp wp (r ∷ []) z a lt f = absurd (omega (arith, f.2))
  square_lines-written (n ∷ ns) (suc rounds) fp wp (r ∷ w ∷ rs) z a lt f =
      let h = square_lines-written ns rounds fp wp rs z a.2 (omega arith) f.3 in
      let e =
        ap (λ l. libc.atoi (c_string l)) f.1 ∙ ap libc.atoi (is_line-c_string _ a.0.0) ∙ a.0.2 in
      rw (f.0, e, write_square-run n wp w rs _ _ z a.1, ==ℤ_self wp)
        (h.0, ap (λ t. square_line format n ++ t) h.1)

  pub square_numbers-written :
      (ns : List ℕ) (rounds : ℕ) (pipe1 pipe2 : ℤ × ℤ) (r1 r2 fp wp : Reply) (rs : List Reply)
      → is_zero fp.value ≡ false
      → is_zero wp.value ≡ false
      → AllReadable ns
      → length ns < rounds
      → IsFed 1 2 (map (number_line format) ns) rs
      → let r = run (square_numbers libc rounds pipe1 pipe2) (r1 ∷ r2 ∷ fp ∷ wp ∷ rs) in
        (r.outcome ≡ returned (pos 0))
        × (written format wp.value r.events ≡ concat (map (square_line format) ns))
  unfolding square_numbers square_streams run
  square_numbers-written ns rounds pipe1 pipe2 r1 r2 fp wp rs z z' a lt f =
      rw z (square_lines-written ns rounds fp.value wp.value rs z' a lt f)
