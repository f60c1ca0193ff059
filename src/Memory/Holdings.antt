-- ===== src/Memory/Holdings.antt =====
-- What memory_management.c holds: a block, a mapping and a descriptor, one of each at a time.
use linux_system_programming.Base.{
  ℕ, zero, suc, ℤ, pos, ◌⊎◌, fails, is_zero, positive, ltb, ◌==ℤ◌, ◌≡◌, refl, ◌≤◌, ◌+◌, arith, Bool,
  true, false, ◌&&◌, ◌||◌, Option, none, some, if◌then◌else◌, List, [], ◌∷◌, ◌++◌, length, get_or,
  take, drop, ap, sym, subst, le→leb,
}
use linux_system_programming.Posix
use linux_system_programming.Posix.{
  Prog, ret, ◌>>=◌, Safe-weaken, Call, malloc, free, close, ask, read, write, open_file, realloc,
  calloc, posix_memalign, mmap, msync, munmap, touch, Reply, Monitor, Safe, safe_ret, safe_call,
  safe_if, safe_print, safe_fault, Safe-check, Safe-bind, Safe-Obeys, AllLawful, run, Obeys, poke,
}
use linux_system_programming.Memory.{copy_to, fresh, has_zero}

-- `untested`: a call whose result is not tested has failed.
pub record Held : Type 0 where
  pub block : Option ℤ
  pub mapping : Option ℤ
  pub file : Option ℤ
  pub untested : Bool

abbrev pub nothing : Bool → Held
nothing u = record { block = none; mapping = none; file = none; untested = u }

abbrev pub is_held : Option ℤ → ℤ → Bool
is_held none x = false
is_held (some y) x = x ==ℤ y

abbrev is_none : Option ℤ → Bool
is_none none = true
is_none (some y) = false

abbrev may_ask : Held → Posix.Service → Bool
may_ask s (calloc count size) = is_none s.block
may_ask s (posix_memalign alignment size) = is_none s.block
may_ask s (realloc block size) = is_held s.block block
may_ask s (open_file path flags) = is_none s.file
may_ask s (read fd size) = is_held s.file fd || fails fd
may_ask s (write fd bytes) = is_held s.file fd
may_ask s (mmap size fd) = is_none s.mapping && is_held s.file fd
may_ask s (msync addr size) = is_held s.mapping addr
may_ask s (munmap addr size) = is_held s.mapping addr
may_ask s (touch p) = is_held s.block p || is_held s.mapping p
may_ask s q = false

-- What is accessed, used and given back is held; only a read and a close may be of -1, and do nothing
-- then.
abbrev may : Held → Call → Bool
may s (malloc size) = is_none s.block
may s (free block) = is_held s.block block
may s (close fd) = is_held s.file fd || fails fd
may s (ask q) = may_ask s q
may s _ = false

abbrev take_block : Held → ℤ → Held
take_block s p = if is_zero p then s else record s { block = some p }

abbrev then_asked : Held → Posix.Service → Reply → Held
then_asked s (calloc count size) r = take_block s r.value
then_asked s (realloc block size) r = take_block s r.value
then_asked s (posix_memalign alignment size) r =
    if is_zero r.value then record s { block = some r.pointer } else s
then_asked s (open_file path flags) r =
    if fails r.value then s else record s { file = some r.value }
then_asked s (write fd bytes) r = if positive r.value then s else record s { untested = true }
then_asked s (read fd size) r = if ltb (length r.bytes) 256 then s else record s { untested = true }
then_asked s (mmap size fd) r = if fails r.value then s else record s { mapping = some r.value }
then_asked s (munmap addr size) r = record s { mapping = none }
then_asked s q r = s

abbrev then_held : Held → Call → Reply → Held
then_held s (malloc size) r =
    if is_zero r.value then record s { untested = true } else record s { block = some r.value }
then_held s (free block) r = record s { block = none }
then_held s (close fd) r = record s { file = none }
then_held s (ask q) r = then_asked s q r
then_held s _ r = s

abbrev pub memory : Monitor
memory = record { State = Held; allows = may; next = then_held; excuses = λ s. s.untested ≡ true }

-- Whatever is returned, nothing is held.
abbrev pub IsReleased {ℓ} : {A : Type ℓ} → A → Held → Type 0
IsReleased a s = s ≡ nothing s.untested

-- the same at the end of `main`, with its exit code
abbrev pub IsExited : ℤ → Held → Type 0
IsExited n s = IsReleased n s × ((n ≡ pos 0) ⊎ (n ≡ pos 1))

pub has_zero-append : (xs ys : List ℕ) → has_zero ys ≡ true → has_zero (xs ++ ys) ≡ true
has_zero-append [] ys e = e
has_zero-append (x ∷ xs) ys e = ground (arith, has_zero-append xs ys e)

pub has_zero-drop :
    (xs : List ℕ) (n i : ℕ) → n ≤ i → get_or xs i 1 ≡ 0 → has_zero (drop n xs) ≡ true
has_zero-drop [] n i le e = absurd (omega (arith, e))
has_zero-drop (x ∷ xs) zero zero le e = ground arith
has_zero-drop (x ∷ xs) zero (suc i) le e = ground (arith, has_zero-drop xs zero i (omega arith) e)
has_zero-drop (x ∷ xs) (suc n) zero le e = absurd (omega arith)
has_zero-drop (x ∷ xs) (suc n) (suc i) le e = has_zero-drop xs n i (omega arith) e

pub length-fresh : (garbage : ℕ → ℕ) (n : ℕ) → length (fresh garbage n) ≡ n
unfolding fresh
length-fresh garbage zero = refl
length-fresh garbage (suc n) = ap suc (length-fresh garbage n)

module _ {ℓ} {A : Type ℓ} {limit : ℕ} {Q : A → Held → Type 0} where
  pub Safe-copy_to :
      (buffer : List ℕ) (at : ℕ) (bytes : List ℕ) (k : List ℕ → Prog A) {s : Held}
      → at + length bytes ≤ length buffer
      → Safe limit memory Q (k (take at buffer ++ (bytes ++ drop (at + length bytes) buffer))) s
      → Safe limit memory Q (copy_to buffer at bytes >>= k) s
  unfolding copy_to
  Safe-copy_to buffer at bytes k le h = Safe-check (le→leb (at + length bytes) (length buffer) le) h

  -- a state in which nothing is held
  pub Safe-released :
      {p : Prog A} (s : Held)
      → s ≡ nothing s.untested
      → ((u : Bool) → Safe limit memory Q p (nothing u))
      → Safe limit memory Q p s
  Safe-released {p} s e h = subst (λ t. Safe limit memory Q p t) (sym e) (h s.untested)
