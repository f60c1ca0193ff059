-- ===== src/Posix/Programs.antt =====
-- A C function as a tree: each call to the system branches on the reply.
use linux_system_programming.Base.{
  ℕ, zero, suc, ℤ, pos, negsuc, List, [], ◌∷◌, ◌++◌, String, length, drop, set, ltb, pos_part,
  positive, Bool, true, false, ◌≡◌, refl, ap, fun_ext,
}
use linux_system_programming.Posix.Calls.{Arg, Call, Reply}

-- a line to the terminal: `printf`, `fprintf(stderr, …)`, `perror`
pub data Line : Type 0 where
  out : String → List Arg → Line
  err : String → List Arg → Line
  perror_line : String → Line
  -- what is written to `std::cout` and `std::cerr` up to the end of a line
  cout_line : List Arg → Line
  cerr_line : List Arg → Line

infix 1 if◌then◌else◌
pub data Prog {ℓ} (A : Type ℓ) : Type ℓ where
  ret : A → Prog A
  call : Call → (Reply → Prog A) → Prog A
  print : Line → Prog A → Prog A
  if◌then◌else◌ : Bool → Prog A → Prog A → Prog A
  -- undefined behaviour, such as a write outside a buffer
  fault : Prog A
  -- the rounds that a loop was given are used up
  spent : Prog A

infixl 5 ◌>>=◌ ◌>>◌
abbrev pub ◌>>=◌ {ℓ κ} : {A : Type ℓ} {B : Type κ} → Prog A → (A → Prog B) → Prog B
ret a >>= f = f a
call c k >>= f = call c (λ r. k r >>= f)
print l p >>= f = print l (p >>= f)
(if b then p else q) >>= f = if b then (p >>= f) else (q >>= f)
fault >>= f = fault
spent >>= f = spent

abbrev pub ◌>>◌ {ℓ κ} : {A : Type ℓ} {B : Type κ} → Prog A → Prog B → Prog B
p >> q = p >>= λ _. q

pub bind_assoc {ℓ κ μ} :
    {A : Type ℓ} {B : Type κ} {C : Type μ} (p : Prog A) (f : A → Prog B) (g : B → Prog C)
    → ((p >>= f) >>= g) ≡ (p >>= λ a. f a >>= g)
bind_assoc (ret a) f g = refl
bind_assoc (call c k) f g = ap (call c) (fun_ext λ r. bind_assoc (k r) f g)
bind_assoc (print l p) f g = ap (print l) (bind_assoc p f g)
bind_assoc (if b then p else q) f g = rw (bind_assoc p f g, bind_assoc q f g)
bind_assoc fault f g = refl
bind_assoc spent f g = refl

-- `>>=` by a name, for the modules that have an operator of their own
abbrev pub and_then {ℓ κ} : {A : Type ℓ} {B : Type κ} → Prog A → (A → Prog B) → Prog B
and_then p f = p >>= f

-- a call with all that it gives, and one of which only the result is used
abbrev pub sys : Call → Prog Reply
sys c = call c (λ r. ret r)

abbrev pub int : Call → Prog ℤ
int c = call c (λ r. ret r.value)

abbrev pub printf : String → List Arg → Prog (Unit {0})
printf f l = print (out f l) (ret tt)

abbrev pub eprintf : String → List Arg → Prog (Unit {0})
eprintf f l = print (err f l) (ret tt)

abbrev pub perror : String → Prog (Unit {0})
perror s = print (perror_line s) (ret tt)

-- The buffer after a read that wrote `bytes` at its start.
abbrev pub fill : List ℕ → List ℕ → List ℕ
fill buffer bytes = bytes ++ drop (length bytes) buffer

abbrev pub in_range : ℤ → List ℕ → Bool
in_range (pos n) buffer = ltb n (length buffer)
in_range (negsuc n) buffer = false

-- `buffer[n] = v`; outside the buffer this is undefined behaviour.
abbrev pub poke : List ℕ → ℤ → ℕ → Prog (List ℕ)
poke buffer n v = if in_range n buffer then ret (set buffer (pos_part n) v) else fault

-- A condition outside of which the call that follows is undefined.
abbrev pub require : Bool → Prog (Unit {0})
require b = if b then ret tt else fault

-- `FD_SET` wants a descriptor from 0 up to FD_SETSIZE.
abbrev pub fits_set : ℕ → ℤ → Bool
fits_set fd_setsize (pos n) = ltb n fd_setsize
fits_set fd_setsize (negsuc n) = false

-- `sin_addr` after `memset` and an `inet_pton` whose result is not tested: 0 unless it succeeded
abbrev pub host_or_zero : Reply → ℕ
host_or_zero r = elim (positive r.value) [ true ↦ r.from.host | false ↦ 0 ]

-- a buffer after `memset(buffer, 0, n)`
unfoldable pub zeros : ℕ → List ℕ
zeros zero = []
zeros (suc n) = 0 ∷ zeros n

-- The text that `%s` prints: the bytes before the first zero.
abbrev pub c_string : List ℕ → List ℕ
c_string [] = []
c_string (zero ∷ bytes) = []
c_string (suc c ∷ bytes) = suc c ∷ c_string bytes
