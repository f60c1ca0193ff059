-- ===== src/Directory/Listing/Streams.antt =====
-- Directory streams and the temporary file, and what the two listings do with them.
use linux_system_programming.Base.{
  ℕ, zero, suc, ℤ, fails, is_zero, ◌==ℤ◌, ==ℤ_self, ◌≡◌, refl, ◌≤◌, ◌+◌, arith, lt→ltb, Bool, true,
  false, Option, none, some, if◌then◌else◌,
}
use linux_system_programming.Posix.{
  Libc, Call, ask, close, opendir, readdir, closedir, mkstemp, write, Reply, Monitor, Safe,
  safe_ret, safe_call, safe_if, safe_print, safe_spent, Safe-check, Safe-bind,
}
use linux_system_programming.Directory.Listing.{
  list_entries, list_directory, describe_entries, describe_directory, int_max,
}

-- The stream and the descriptor that are open.
pub record Opened : Type 0 where
  pub stream : Option ℤ
  pub file : Option ℤ

abbrev pub closed : Opened
closed = record { stream = none; file = none }

abbrev is_open : Option ℤ → ℤ → Bool
is_open none x = false
is_open (some y) x = x ==ℤ y

abbrev is_none : Option ℤ → Bool
is_none none = true
is_none (some y) = false

-- One stream at a time is opened, read and closed, and one temporary file.
abbrev may : Opened → Call → Bool
may s (ask (opendir path)) = is_none s.stream
may s (ask (readdir dir)) = is_open s.stream dir
may s (ask (closedir dir)) = is_open s.stream dir
may s (ask (mkstemp template)) = is_none s.file
may s (ask (write fd bytes)) = is_open s.file fd
may s (ask q) = true
may s (close fd) = is_open s.file fd
may s _ = false

abbrev then_open : Opened → Call → Reply → Opened
then_open s (ask (opendir path)) r =
    if is_zero r.value then s else record s { stream = some r.value }
then_open s (ask (closedir dir)) r = record s { stream = none }
then_open s (ask (mkstemp template)) r =
    if fails r.value then s else record s { file = some r.value }
then_open s (close fd) r = record s { file = none }
then_open s _ r = s

abbrev pub streams : Monitor
streams = record { State = Opened; allows = may; next = then_open; excuses = λ s. ⊥ }

module _ (libc : Libc) {limit : ℕ} where
  list_entries-Safe :
      (rounds : ℕ) (dir : ℤ) (files dirs : ℕ) (s : Opened)
      → files + dirs + rounds ≤ int_max
      → is_open s.stream dir ≡ true
      → Safe limit streams (λ _ t. t ≡ s) (list_entries libc rounds dir files dirs) s
  unfolding list_entries
  list_entries-Safe zero dir files dirs s le h = safe_spent
  list_entries-Safe (suc rounds) dir files dirs s le h = safe_call h λ r _.
      safe_if (λ _. safe_ret refl)
        (λ _.
          safe_if (λ _. list_entries-Safe rounds dir files dirs s (omega arith) h)
            (λ _. safe_print (
              safe_if
                (λ _. safe_print (
                  Safe-check (lt→ltb dirs int_max (omega arith))
                    (list_entries-Safe rounds dir files (suc dirs) s (omega arith) h)))
                (λ _.
                  safe_if
                    (λ _. safe_print (
                      Safe-check (lt→ltb files int_max (omega arith))
                        (list_entries-Safe rounds dir (suc files) dirs s (omega arith) h)))
                    (λ _.
                      safe_print (list_entries-Safe rounds dir files dirs s (omega arith) h))))))

  describe_entries-Safe :
      (rounds : ℕ) (dir : ℤ) (s : Opened)
      → is_open s.stream dir ≡ true
      → Safe limit streams (λ _ t. t ≡ s) (describe_entries libc rounds dir) s
  unfolding describe_entries
  describe_entries-Safe zero dir s h = safe_spent
  describe_entries-Safe (suc rounds) dir s h = safe_call h λ r _.
      safe_if (λ _. safe_ret refl)
        (λ _.
          safe_if (λ _. describe_entries-Safe rounds dir s h)
            (λ _. safe_call refl λ st _.
              safe_if
                (λ _. safe_print (
                  safe_print
                    (safe_print (safe_print (safe_print (describe_entries-Safe rounds dir s h))))))
                (λ _. describe_entries-Safe rounds dir s h)))

  pub list_directory-Safe :
      (rounds : ℕ)
      → rounds ≤ int_max
      → Safe limit streams (λ _ t. t ≡ closed) (list_directory libc rounds) closed
  unfolding list_directory
  list_directory-Safe rounds le = safe_print (
      safe_call refl λ r _.
        safe_if (λ e. rw e (safe_print (safe_ret refl)))
          (λ e. rw e (
            safe_print (
              Safe-bind _
                (list_entries-Safe rounds r.value 0 0 (record closed { stream = some r.value })
                  (omega arith) (==ℤ_self r.value))
                (λ n t e'.
                  rw e' (safe_call (==ℤ_self r.value) λ _ _. safe_print (safe_ret refl)))))))

  pub describe_directory-Safe :
      (rounds : ℕ) → Safe limit streams (λ _ t. t ≡ closed) (describe_directory libc rounds) closed
  unfolding describe_directory
  describe_directory-Safe rounds = safe_print (
      safe_call refl λ r _.
        safe_if (λ e. rw e (safe_print (safe_ret refl)))
          (λ e. rw e (
            Safe-bind _
              (describe_entries-Safe rounds r.value (record closed { stream = some r.value })
                (==ℤ_self r.value))
              (λ n t e'. rw e' (safe_call (==ℤ_self r.value) λ _ _. safe_ret refl)))))
