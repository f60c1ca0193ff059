-- ===== src/Cpp/Rounds.antt =====
-- The rounds of methods: what follows one that may have thrown.
use linux_system_programming.Base.{ℕ}
use linux_system_programming.Posix.{Lasts, lasts_ret}
use linux_system_programming.Cpp.Method.{
  Exception, Method, Tried, resume, handled, all_handled, ok, threw, error_code, message,
  system_error,
}

module _ {A B S : Type 0} {n : ℕ} (f : A → Method S B) where
  pub Lasts-resume : ((a : A) (s : S) → Lasts (f a s) n) → (r : Tried A × S) → Lasts (resume f r) n
  Lasts-resume h (ok a, s) = h a s
  Lasts-resume h (threw e, s) = lasts_ret

module _ {A S : Type 0} {n : ℕ} (h : Exception → Method S A) where
  pub Lasts-handled :
      ((e : Exception) (s : S) → Lasts (h e s) n) → (r : Tried A × S) → Lasts (handled h r) n
  Lasts-handled k (ok a, s) = lasts_ret
  Lasts-handled k (threw system_error, s) = lasts_ret
  Lasts-handled k (threw (error_code context code), s) = k _ s
  Lasts-handled k (threw (message args), s) = k _ s

  pub Lasts-all_handled :
      ((e : Exception) (s : S) → Lasts (h e s) n) → (r : Tried A × S) → Lasts (all_handled h r) n
  Lasts-all_handled k (ok a, s) = lasts_ret
  Lasts-all_handled k (threw e, s) = k e s
