-- ===== src/Pipes/Discipline/Talks.antt =====
-- Examples 1 and 2: a parent and a child over one pipe, and over two.
use linux_system_programming.Base.{
  ℕ, ℤ, pos, fails, ◌==ℤ◌, ==ℤ_self, ◌≡◌, refl, Bool, true, false, Option, none, some, List, length,
  inl, inr, Bool-cases, arith,
}
use linux_system_programming.Posix.{
  int, close, ret, ◌>>◌, Libc, Safe, safe_ret, safe_call, safe_print, safe_if, safe_fault,
  Safe-check, in_range-fill,
}
use linux_system_programming.Pipes.{
  simple_child, simple_parent, respond, print_response, bidirectional_child, bidirectional_parent,
}
use linux_system_programming.Pipes.Ends.{Ends, pipe_ends, is_shut}
use linux_system_programming.Pipes.Discipline.Steps.{
  at, with_streams, Apart, Safe-close_reader, Safe-close_writer, Safe-close_writer_first,
  Safe-close_reader_second, Safe-close_writer_second, Safe-close_writer_second_first,
  Safe-read_poke,
}

-- A process that ends with 0 has closed both ends of the first pipe, and no stream is open.
abbrev pub Finished : ℤ → Option Ends → Type 0
Finished a none = Unit
Finished a (some s) = a ≡ pos 0 → (is_shut s.first ≡ true) × (s.source ≡ none) × (s.sink ≡ none)

-- both pipes are shut
abbrev pub AllShut : ℤ × ℤ → ℤ × ℤ → Unit {0} → Option Ends → Type 0
AllShut p q a t =
    (u : Bool) × (t ≡ some (with_streams (at p false false) (at q false false) none none u))

module _ (libc : Libc) {limit : ℕ} (p q : ℤ × ℤ) where
  pub simple_parent-Safe :
      (u : Bool)
      → (p.1 ==ℤ p.0) ≡ false
      → Safe limit
          (pipe_ends libc)
          (AllShut p q)
          (simple_parent p)
          (some (with_streams (at p true true) (at q false false) none none u))
  unfolding simple_parent
  simple_parent-Safe u ba = Safe-close_reader libc p q λ _.
      safe_call (rw (==ℤ_self p.1) refl)
        λ _ _. Safe-close_writer libc p q λ _. safe_call refl λ _ _. safe_ret (u, refl)

  closed :
      (u : Bool)
      → Safe limit
          (pipe_ends libc)
          Finished
          (do int (close p.0); ret (pos 0))
          (some (with_streams (at p true false) (at q false false) none none u))
  closed u = Safe-close_reader libc p q λ _. safe_ret (λ _. (refl, refl, refl))

  pub simple_child-Safe :
      (buffer : List ℕ) (u : Bool)
      → (p.1 ==ℤ p.0) ≡ false
      → length buffer ≡ 256
      → Safe limit
          (pipe_ends libc)
          Finished
          (simple_child p buffer)
          (some (with_streams (at p true true) (at q false false) none none u))
  unfolding simple_child
  simple_child-Safe buffer u ba le = Safe-close_writer_first libc p q ba λ _.
      safe_call (rw (==ℤ_self p.0) refl) λ r l. elim (Bool-cases (fails r.value)) [
        | inl e ↦ rw e (
            safe_if (λ _. safe_if (λ _. safe_print (closed true)) (λ _. safe_fault refl))
              (λ _. closed true))
        | inr e ↦ rw e (
            safe_if
              (λ _.
                Safe-check (in_range-fill buffer 255 (omega arith) r l e) (safe_print (closed u)))
              (λ _. closed u))
      ]

  respond-Safe :
      (buffer : List ℕ) (u : Bool)
      → Apart p q
      → Safe limit
          (pipe_ends libc)
          Finished
          (respond p q buffer)
          (some (with_streams (at p true false) (at q false true) none none u))
  unfolding respond
  respond-Safe buffer u apart = safe_print (
      safe_call (rw (==ℤ_self q.1) refl) λ _ _. Safe-close_reader libc p q λ _.
        Safe-close_writer_second libc p q (apart.3 false false)
          λ _. safe_ret (λ _. (refl, refl, refl)))

  print_response-Safe :
      (buffer : List ℕ) (u : Bool)
      → Apart p q
      → Safe limit
          (pipe_ends libc)
          (AllShut p q)
          (print_response p q buffer)
          (some (with_streams (at p false true) (at q true false) none none u))
  unfolding print_response
  print_response-Safe buffer u apart = safe_print (
      Safe-close_writer libc p q λ _.
        Safe-close_reader_second libc p q (apart.2 false false)
          λ _. safe_call refl λ _ _. safe_ret (u, refl))

  pub bidirectional_child-Safe :
      (buffer : List ℕ) (u : Bool)
      → (p.1 ==ℤ p.0) ≡ false
      → Apart p q
      → length buffer ≡ 256
      → Safe limit
          (pipe_ends libc)
          Finished
          (bidirectional_child p q buffer)
          (some (with_streams (at p true true) (at q true true) none none u))
  unfolding bidirectional_child
  bidirectional_child-Safe buffer u ba apart le = Safe-close_writer_first libc p q ba λ _.
      Safe-close_reader_second libc p q (apart.2 true false) λ _.
        Safe-read_poke libc {k = respond p q} buffer p.0 _ le (rw (==ℤ_self p.0) refl)
          λ left u. respond-Safe left u apart

  pub bidirectional_parent-Safe :
      (buffer : List ℕ) (u : Bool)
      → (p.1 ==ℤ p.0) ≡ false
      → Apart p q
      → length buffer ≡ 256
      → Safe limit
          (pipe_ends libc)
          (AllShut p q)
          (bidirectional_parent p q buffer)
          (some (with_streams (at p true true) (at q true true) none none u))
  unfolding bidirectional_parent
  bidirectional_parent-Safe buffer u ba apart le = Safe-close_reader libc p q λ _.
      Safe-close_writer_second_first libc p q (apart.3 false true) apart.0 λ _.
        safe_call (rw (==ℤ_self p.1) refl) λ _ _.
          Safe-read_poke libc {k = print_response p q} buffer q.0 _ le (rw (==ℤ_self q.0) refl)
            λ left u. print_response-Safe left u apart
