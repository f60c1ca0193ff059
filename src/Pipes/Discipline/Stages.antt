-- ===== src/Pipes/Discipline/Stages.antt =====
-- Example 3: the three processes of the pipeline.
use linux_system_programming.Base.{
  ℕ, ℤ, pos, is_zero, ◌==ℤ◌, ==ℤ_self, ◌≡◌, refl, Bool, true, false, not, none, some, ◌⊎◌, inl, inr,
  Bool-cases,
}
use linux_system_programming.Posix.{
  wait, require, Libc, ret, int, ask, close, fclose, fdopen, ◌>>=◌, ◌>>◌, Safe, safe_ret, safe_call,
  Safe-bind,
}
use linux_system_programming.Pipes.{
  generate_numbers, square_streams, square_numbers, print_stream, print_results,
}
use linux_system_programming.Pipes.Ends.{pipe_ends}
use linux_system_programming.Pipes.Discipline.Loops.{
  write_numbers-Safe, print_lines-Safe, square_lines-Safe,
}
use linux_system_programming.Pipes.Discipline.Steps.{
  at, with_streams, Apart, Safe-close_reader, Safe-close_writer, Safe-close_writer_first,
  Safe-close_reader_second, Safe-close_writer_second_first, Safe-excused_check,
}
use linux_system_programming.Pipes.Discipline.Talks.{Finished}

still : {a u v : Bool} → (a ≡ true) ⊎ (u ≡ true) → (u ≡ true → v ≡ true) → (a ≡ true) ⊎ (v ≡ true)
still (inl e) f = inl e
still (inr e) f = inr (f e)

module _ (libc : Libc) {limit : ℕ} (p q : ℤ × ℤ) where
  pub generate_numbers-Safe :
      (u : Bool)
      → Safe limit
          (pipe_ends libc)
          Finished
          (generate_numbers p)
          (some (with_streams (at p true true) (at q true true) none none u))
  unfolding generate_numbers
  generate_numbers-Safe u = Safe-close_reader libc p q λ _.
      Safe-bind (λ _. int (close p.1) >> ret (pos 0))
        (write_numbers-Safe libc 5 1 p.1 _ (rw (==ℤ_self p.1) refl))
        (λ _ t e. rw e (Safe-close_writer libc p q λ _. safe_ret (λ _. (refl, refl, refl))))

  sink_closed :
      (wp : ℤ) (u : Bool)
      → Safe limit
          (pipe_ends libc)
          Finished
          (do int (ask (fclose wp)); ret (pos 0))
          (some (with_streams (at p false false) (at q false true) none (some (wp, q.1)) u))
  sink_closed wp u =
      safe_call (rw (==ℤ_self wp, ==ℤ_self q.1) refl) λ _ _. safe_ret (λ _. (refl, refl, refl))

  streams_closed :
      (fp wp : ℤ) (u : Bool)
      → (not (is_zero wp) ≡ true) ⊎ (u ≡ true)
      → Safe limit
          (pipe_ends libc)
          Finished
          (do int (ask (fclose fp)); require (not (is_zero wp)); int (ask (fclose wp)); ret (pos 0))
          (some
            (with_streams (at p true false) (at q false true) (some (fp, p.0)) (some (wp, q.1)) u))
  streams_closed fp wp u w =
      safe_call (rw (==ℤ_self fp, ==ℤ_self p.0) refl)
        λ _ _. rw (==ℤ_self fp, ==ℤ_self p.0) (Safe-excused_check libc w (sink_closed wp u))

  pub square_streams-Safe :
      (rounds : ℕ) (fp wp : ℤ) (u : Bool)
      → (not (is_zero fp) ≡ true) ⊎ (u ≡ true)
      → (not (is_zero wp) ≡ true) ⊎ (u ≡ true)
      → Safe limit (pipe_ends libc) Finished (square_streams libc rounds fp wp) (
          some
            (with_streams (at p true false) (at q false true) (some (fp, p.0)) (some (wp, q.1)) u))
  unfolding square_streams
  square_streams-Safe rounds fp wp u f w = Safe-excused_check libc f (
      Safe-bind _
        (square_lines-Safe libc rounds fp wp _ (rw (==ℤ_self fp, ==ℤ_self p.0) refl)
          (rw (==ℤ_self wp, ==ℤ_self q.1) refl) w)
        (λ _ t e. rw e.1 (streams_closed fp wp e.0 (still w e.2))))

  sink_opened :
      (rounds : ℕ) (fp : ℤ) (u : Bool)
      → Apart p q
      → (not (is_zero fp) ≡ true) ⊎ (u ≡ true)
      → Safe limit
          (pipe_ends libc)
          Finished
          (do wp ← int (ask (fdopen q.1 "w")); square_streams libc rounds fp wp)
          (some (with_streams (at p true false) (at q false true) (some (fp, p.0)) none u))
  sink_opened rounds fp u apart f = safe_call (rw (apart.1, ==ℤ_self q.1) refl) λ wp _.
      rw (apart.1) (elim (Bool-cases (is_zero wp.value)) [
        | inl e ↦ rw e (square_streams-Safe rounds fp wp.value true (inr refl) (inr refl))
        | inr e ↦ rw e (square_streams-Safe rounds fp wp.value u f (inl (rw e refl)))
      ])

  source_closed :
      (fp : ℤ) (u : Bool)
      → Safe limit
          (pipe_ends libc)
          Finished
          (do int (ask (fclose fp)); int (ask wait); int (ask wait); ret (pos 0))
          (some (with_streams (at p false false) (at q true false) (some (fp, q.0)) none u))
  source_closed fp u = safe_call (rw (==ℤ_self fp, ==ℤ_self q.0) refl) λ _ _.
      rw (==ℤ_self fp)
        (safe_call refl λ _ _. safe_call refl λ _ _. safe_ret (λ _. (refl, refl, refl)))

  pub print_stream-Safe :
      (rounds : ℕ) (fp : ℤ) (u : Bool)
      → (not (is_zero fp) ≡ true) ⊎ (u ≡ true)
      → Safe limit
          (pipe_ends libc)
          Finished
          (print_stream rounds fp)
          (some (with_streams (at p false false) (at q true false) (some (fp, q.0)) none u))
  unfolding print_stream
  print_stream-Safe rounds fp u f = Safe-excused_check libc f (
      Safe-bind _ (print_lines-Safe libc rounds fp _ (rw (==ℤ_self fp, ==ℤ_self q.0) refl))
        (λ _ t e. rw e.1 (source_closed fp e.0)))

  pub square_numbers-Safe :
      (rounds : ℕ) (u : Bool)
      → (p.1 ==ℤ p.0) ≡ false
      → Apart p q
      → Safe limit
          (pipe_ends libc)
          Finished
          (square_numbers libc rounds p q)
          (some (with_streams (at p true true) (at q true true) none none u))
  unfolding square_numbers
  square_numbers-Safe rounds u ba apart = Safe-close_writer_first libc p q ba λ _.
      Safe-close_reader_second libc p q (apart.2 true false) λ _.
        safe_call (rw (==ℤ_self p.0) refl) λ fp _.
          rw (==ℤ_self p.0) (elim (Bool-cases (is_zero fp.value)) [
            | inl e ↦ rw e (sink_opened rounds fp.value true apart (inr refl))
            | inr e ↦ rw e (sink_opened rounds fp.value u apart (inl (rw e refl)))
          ])

  pub print_results-Safe :
      (rounds : ℕ) (u : Bool)
      → Apart p q
      → Safe limit
          (pipe_ends libc)
          Finished
          (print_results rounds p q)
          (some (with_streams (at p true true) (at q true true) none none u))
  unfolding print_results
  print_results-Safe rounds u apart = Safe-close_reader libc p q λ _.
      Safe-close_writer libc p q λ _.
        Safe-close_writer_second_first libc p q (apart.3 false false) apart.0 λ _.
          safe_call (rw (==ℤ_self q.0) refl) λ fp _.
            rw (==ℤ_self q.0) (elim (Bool-cases (is_zero fp.value)) [
              | inl e ↦ rw e (print_stream-Safe rounds fp.value true (inr refl))
              | inr e ↦ rw e (print_stream-Safe rounds fp.value u (inl (rw e refl)))
            ])
