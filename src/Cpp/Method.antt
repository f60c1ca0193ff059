-- ===== src/Cpp/Method.antt =====
-- Methods: programs with a state, the object's fields and the locals in scope, that may throw. The
-- state comes back after a throw too, since the destructors read it.
use linux_system_programming.Base.{ℤ, Bool, String, List, [], ◌∷◌}
use linux_system_programming.Posix
use linux_system_programming.Posix.{
  Arg, lit, num, text, cout_line, cerr_line, Call, Reply, Prog, ret, call, print, fault, spent,
  and_then, Libc,
}

-- `SocketException(context, errno)`, `SocketException(msg)`, and what `std::thread` throws
pub data Exception : Type 0 where
  error_code : String → ℤ → Exception
  message : List Arg → Exception
  system_error : Exception

-- `what()`
abbrev pub what : Libc → Exception → List Arg
what libc (error_code context code) = lit context ∷ lit ": " ∷ text (libc.strerror code) ∷ []
what libc (message args) = args
what libc system_error = lit "system_error" ∷ []

pub data Tried (A : Type 0) : Type 0 where
  ok : A → Tried A
  threw : Exception → Tried A

abbrev pub Method : Type 0 → Type 0 → Type 0
Method S A = S → Prog (Tried A × S)

module _ {S : Type 0} where
  abbrev pub pure : {A : Type 0} → A → Method S A
  pure a s = ret (ok a, s)

  abbrev pub throw : {A : Type 0} → Exception → Method S A
  throw e s = ret (threw e, s)

  abbrev pub resume : {A B : Type 0} → (A → Method S B) → Tried A × S → Prog (Tried B × S)
  resume f (ok a, s) = f a s
  resume f (threw e, s) = ret (threw e, s)

  infixl 5 ◌>>=◌ ◌>>◌
  abbrev pub ◌>>=◌ : {A B : Type 0} → Method S A → (A → Method S B) → Method S B
  ◌>>=◌ m f s = and_then (m s) (resume f)

  abbrev pub ◌>>◌ : {A B : Type 0} → Method S A → Method S B → Method S B
  m >> n = m >>= λ _. n

  infix 1 if◌then◌else◌
  abbrev pub if◌then◌else◌ : {A : Type 0} → Bool → Method S A → Method S A → Method S A
  if◌then◌else◌ b m n s = Posix.if◌then◌else◌ b (m s) (n s)

  abbrev pub sys : Call → Method S Reply
  sys c s = call c (λ r. ret (ok r, s))

  abbrev pub cout : List Arg → Method S (Unit {0})
  cout args s = print (cout_line args) (ret (ok tt, s))

  abbrev pub cerr : List Arg → Method S (Unit {0})
  cerr args s = print (cerr_line args) (ret (ok tt, s))

  abbrev pub get : Method S S
  get s = ret (ok s, s)

  abbrev pub modify : (S → S) → Method S (Unit {0})
  modify f s = ret (ok tt, f s)

  -- what cannot throw, such as a destructor
  abbrev pub plain : Prog (Unit {0}) → Method S (Unit {0})
  plain p s = and_then p (λ _. ret (ok tt, s))

  -- a condition outside of which what follows is undefined
  abbrev pub require : Bool → Method S (Unit {0})
  require b s = Posix.if◌then◌else◌ b (ret (ok tt, s)) fault

  abbrev pub cut_short : {A : Type 0} → Method S A
  cut_short s = spent

  abbrev pub handled : {A : Type 0} → (Exception → Method S A) → Tried A × S → Prog (Tried A × S)
  handled h (ok a, s) = ret (ok a, s)
  handled h (threw system_error, s) = ret (threw system_error, s)
  handled h (threw (error_code context code), s) = h (error_code context code) s
  handled h (threw (message args), s) = h (message args) s

  -- `try { m } catch (const SocketException& e) { h }`
  abbrev pub try_catch : {A : Type 0} → Method S A → (Exception → Method S A) → Method S A
  try_catch m h s = and_then (m s) (handled h)

  abbrev pub all_handled :
      {A : Type 0} → (Exception → Method S A) → Tried A × S → Prog (Tried A × S)
  all_handled h (ok a, s) = ret (ok a, s)
  all_handled h (threw e, s) = h e s

  -- `try { m } catch (const std::exception& e) { h }`
  abbrev pub try_catch_all : {A : Type 0} → Method S A → (Exception → Method S A) → Method S A
  try_catch_all m h s = and_then (m s) (all_handled h)

module _ {S T : Type 0} where
  -- the end of a scope: the destructor of its local runs, whether something was thrown or not
  abbrev leave : {A : Type 0} → (T → Prog (Unit {0})) → Tried A × S × T → Prog (Tried A × S)
  leave destroy (r, s, t) = and_then (destroy t) (λ _. ret (r, s))

  -- a scope with one local object
  abbrev pub scoped : {A : Type 0} → T → (T → Prog (Unit {0})) → Method (S × T) A → Method S A
  scoped t destroy m s = and_then (m (s, t)) (λ r. leave destroy (r.0, r.1.0, r.1.1))

  -- what is called on `*this`, and on the local object
  abbrev pub outer : {A : Type 0} → Method S A → Method (S × T) A
  outer m s = and_then (m s.0) (λ r. ret (r.0, (r.1, s.1)))

  abbrev pub local : {A : Type 0} → Method T A → Method (S × T) A
  local m s = and_then (m s.1) (λ r. ret (r.0, (s.0, r.1)))
