-- ===== src/Pipes/Discipline/Loops.antt =====
-- The loops of example 3 use only the streams and the end that they are given.
use linux_system_programming.Base.{
  ℕ, zero, suc, ℤ, is_zero, fits_int, ◌*ℤ◌, ◌≡◌, refl, Bool, true, false, not, ◌&&◌, ◌⊎◌, inl, inr,
  Option, some, Bool-cases,
}
use linux_system_programming.Posix.{
  Libc, Prog, Safe, safe_ret, safe_call, safe_print, safe_if, safe_spent, safe_fault, Safe-check,
  Safe-bind, Safe-weaken, c_string,
}
use linux_system_programming.Pipes.{write_numbers, write_square, square_lines, print_lines}
use linux_system_programming.Pipes.Ends.{Ends, pipe_ends, may_read, may_write, of_stream, unfit}

-- the state `s`, or that in which an untested call was out of order
abbrev pub IsLike {ℓ} : {A : Type ℓ} → Ends → A → Option Ends → Type 0
IsLike s a t = (u : Bool) × (t ≡ some (record s { untested = u })) × (s.untested ≡ true → u ≡ true)

fits_or_excused :
    (z f u : Bool)
    → (not z ≡ true) ⊎ (u ≡ true)
    → not f ≡ false
    → ((not z && f) ≡ true) ⊎ (u ≡ true)
fits_or_excused true f u (inl a) e = absurd cc
fits_or_excused false true u (inl a) e = inl refl
fits_or_excused false false u (inl a) e = absurd cc
fits_or_excused z f u (inr a) e = inr a

module _ (libc : Libc) {limit : ℕ} where
  pub write_numbers-Safe :
      (left i : ℕ) (fd : ℤ) (s : Ends)
      → may_write s fd ≡ true
      → Safe limit (pipe_ends libc) (λ _ t. t ≡ some s) (write_numbers left i fd) (some s)
  unfolding write_numbers
  write_numbers-Safe zero i fd s h = safe_ret refl
  write_numbers-Safe (suc left) i fd s h = safe_call h λ _ _. write_numbers-Safe left (suc i) fd s h

  later :
      {A : Type 0} {p : Prog A} {s t : Ends}
      → Safe limit (pipe_ends libc) (IsLike (record s { untested = true })) p (some t)
      → Safe limit (pipe_ends libc) (IsLike s) p (some t)
  later h = Safe-weaken h (λ _ t l. (l.0, l.1, λ _. l.2 refl))

  pub print_lines-Safe :
      (rounds : ℕ) (fp : ℤ) (s : Ends)
      → of_stream s.source fp (may_read s) ≡ true
      → Safe limit (pipe_ends libc) (IsLike s) (print_lines rounds fp) (some s)
  unfolding print_lines
  print_lines-Safe zero fp s h = safe_spent
  print_lines-Safe (suc rounds) fp s h = safe_call h λ r _. elim (Bool-cases (unfit libc r)) [
    | inl e ↦ rw e (
        safe_if (λ _. safe_ret (true, refl, λ _. refl))
          (λ _. safe_print (later (print_lines-Safe rounds fp (record s { untested = true }) h))))
    | inr e ↦ rw e (
        safe_if (λ _. safe_ret (s.untested, refl, λ e. e))
          (λ _. safe_print (print_lines-Safe rounds fp s h)))
  ]

  -- a number is written where its square fits, unless the failure is excused
  write_square-Safe :
      (n wp : ℤ) (s : Ends)
      → of_stream s.sink wp (may_write s) ≡ true
      → ((not (is_zero wp) && fits_int (n *ℤ n)) ≡ true) ⊎ (s.untested ≡ true)
      → Safe limit (pipe_ends libc) (λ _ t. t ≡ some s) (write_square n wp) (some s)
  unfolding write_square
  write_square-Safe n wp s h (inl e) = Safe-check e (safe_call h λ _ _. safe_ret refl)
  write_square-Safe n wp s h (inr e) =
      safe_if (λ _. safe_call h λ _ _. safe_ret refl) (λ _. safe_fault e)

  pub square_lines-Safe :
      (rounds : ℕ) (fp wp : ℤ) (s : Ends)
      → of_stream s.source fp (may_read s) ≡ true
      → of_stream s.sink wp (may_write s) ≡ true
      → (not (is_zero wp) ≡ true) ⊎ (s.untested ≡ true)
      → Safe limit (pipe_ends libc) (IsLike s) (square_lines libc rounds fp wp) (some s)
  unfolding square_lines
  square_lines-Safe zero fp wp s h k g = safe_spent
  square_lines-Safe (suc rounds) fp wp s h k g = safe_call h λ r _.
      elim (Bool-cases (unfit libc r)) [
        | inl e ↦ rw e (
            safe_if (λ _. safe_ret (true, refl, λ _. refl))
              (λ _.
                Safe-bind (λ _. square_lines libc rounds fp wp)
                  (write_square-Safe (libc.atoi (c_string r.bytes)) wp
                    (record s { untested = true }) k (inr refl))
                  (λ _ t e'. rw e' (
                    later (
                      square_lines-Safe rounds fp wp (record s { untested = true }) h k
                        (inr refl))))))
        | inr e ↦ rw e (
            safe_if (λ _. safe_ret (s.untested, refl, λ e. e))
              (λ _.
                Safe-bind (λ _. square_lines libc rounds fp wp)
                  (write_square-Safe (libc.atoi (c_string r.bytes)) wp s k
                    (fits_or_excused (is_zero wp) _ s.untested g e))
                  (λ _ t e'. rw e' (square_lines-Safe rounds fp wp s h k g))))
      ]
