-- ===== src/Pipes/Ends.antt =====
-- The discipline of pipes: which ends a process has open, and what it may do with them.
use linux_system_programming.Base.{
  ℕ, ℤ, fails, is_zero, ◌*ℤ◌, fits_int, ◌==ℤ◌, ◌≡◌, refl, Bool, true, false, not, ◌&&◌, ◌||◌,
  Option, none, some, if◌then◌else◌,
}
use linux_system_programming.Posix.{
  Libc, Service, Call, close, ask, read, write, fork, wait, pipe, dprintf, fdopen, fgets, fprintf,
  fclose, Reply, Monitor, Prog, ret, call, print, fault, spent, c_string, Safe, safe_ret, safe_call,
  safe_print, safe_if, safe_spent, safe_fault,
}
use linux_system_programming.Posix

-- A pipe, and which of its ends this process has open.
pub record Pipe : Type 0 where
  pub reader : ℤ
  pub writer : ℤ
  pub reads : Bool
  pub writes : Bool

-- Two pipes, and the streams made from an end, each with the end it was made from. `untested`: a read, an
-- `fdopen` or a product whose result is not tested was out of order.
pub record Ends : Type 0 where
  pub first : Pipe
  pub second : Pipe
  pub source : Option (ℤ × ℤ)
  pub sink : Option (ℤ × ℤ)
  pub untested : Bool

abbrev pub is_shut : Pipe → Bool
is_shut p = not p.reads && not p.writes

abbrev is_reader : Pipe → ℤ → Bool
is_reader p fd = p.reads && (fd ==ℤ p.reader)

abbrev is_writer : Pipe → ℤ → Bool
is_writer p fd = p.writes && (fd ==ℤ p.writer)

abbrev pub is_end : Pipe → ℤ → Bool
is_end p fd = is_reader p fd || is_writer p fd

abbrev drop_end : Pipe → ℤ → Pipe
drop_end p fd = if is_reader p fd then record p { reads = false } else record p { writes = false }

abbrev shut : Ends → ℤ → Ends
shut s fd =
    if is_end s.first fd
    then record s { first = drop_end s.first fd }
    else record s { second = drop_end s.second fd }

-- An end is read only while the process does not hold the writing end too, which would keep the pipe from
-- ending; it is written only while the process does not hold the reading end.
abbrev pub may_read : Ends → ℤ → Bool
may_read s fd =
    (is_reader s.first fd && not s.first.writes) || (is_reader s.second fd && not s.second.writes)

abbrev pub may_write : Ends → ℤ → Bool
may_write s fd =
    (is_writer s.first fd && not s.first.reads) || (is_writer s.second fd && not s.second.reads)

abbrev pub of_stream : Option (ℤ × ℤ) → ℤ → (ℤ → Bool) → Bool
of_stream none f test = false
of_stream (some p) f test = (f ==ℤ p.0) && test p.1

abbrev is_none : Option (ℤ × ℤ) → Bool
is_none none = true
is_none (some p) = false

abbrev may_ask : Ends → Service → Bool
may_ask s (read fd size) = may_read s fd
may_ask s (write fd bytes) = may_write s fd
may_ask s (dprintf fd format args) = may_write s fd
may_ask s (fdopen fd mode) =
    (may_read s fd && is_none s.source) || (may_write s fd && is_none s.sink)
may_ask s (fgets size fp) = of_stream s.source fp (may_read s)
may_ask s (fprintf wp format args) = of_stream s.sink wp (may_write s)
may_ask s (fclose f) = of_stream s.source f (may_read s) || of_stream s.sink f (may_write s)
may_ask s pipe = is_shut s.first || is_shut s.second
may_ask s fork = true
may_ask s wait = true
may_ask s q = false

abbrev may : Option Ends → Call → Bool
may none c = true
may (some s) (close fd) = is_end s.first fd || is_end s.second fd
may (some s) (ask q) = may_ask s q
may (some s) c = false

abbrev pub both : ℤ × ℤ → Pipe
both ends = record { reader = ends.0; writer = ends.1; reads = true; writes = true }

-- The new ends differ from each other and from those of the other pipe, or the system is not to be relied
-- on.
abbrev pub clash : Pipe → ℤ × ℤ → Bool
clash p ends =
    (ends.0 ==ℤ p.reader)
    || (ends.0 ==ℤ p.writer)
    || (ends.1 ==ℤ p.reader)
    || (ends.1 ==ℤ p.writer)
    || (ends.1 ==ℤ ends.0)

abbrev place : Ends → ℤ × ℤ → Option Ends
place s ends =
    if is_shut s.first
    then (if ends.1 ==ℤ ends.0 then none else some (record s { first = both ends }))
    else (if clash s.first ends then none else some (record s { second = both ends }))

abbrev shut_sink : Ends → Option (ℤ × ℤ) → Ends
shut_sink s none = s
shut_sink s (some p) = shut (record s { sink = none }) p.1

abbrev close_stream : Ends → Option (ℤ × ℤ) → ℤ → Ends
close_stream s none f = shut_sink s s.sink
close_stream s (some p) f =
    if f ==ℤ p.0 then shut (record s { source = none }) p.1 else shut_sink s s.sink

abbrev excuse : Ends → Bool → Ends
excuse s b = if b then record s { untested = true } else s

abbrev pub unfit : Libc → Reply → Bool
unfit libc r = let n = libc.atoi (c_string r.bytes) in not (fits_int (n *ℤ n))

abbrev then_asked : Libc → Ends → Service → Reply → Option Ends
then_asked libc s pipe r = if fails r.value then none else place s r.ends
then_asked libc s (read fd size) r = some (excuse s (fails r.value))
then_asked libc s (fdopen fd mode) r =
    if may_read s fd
    then some (excuse (record s { source = some (r.value, fd) }) (is_zero r.value))
    else some (excuse (record s { sink = some (r.value, fd) }) (is_zero r.value))
then_asked libc s (fgets size fp) r = some (excuse s (unfit libc r))
then_asked libc s (fclose f) r = some (close_stream s s.source f)
then_asked libc s q r = some s

abbrev then_ends : Libc → Option Ends → Call → Reply → Option Ends
then_ends libc none c r = none
then_ends libc (some s) (close fd) r = some (shut s fd)
then_ends libc (some s) (ask q) r = then_asked libc s q r
then_ends libc (some s) c r = some s

abbrev Excused : Option Ends → Type 0
Excused none = Unit
Excused (some s) = s.untested ≡ true

-- The ends of a process; after a `pipe` that failed, or gave ends that are in use, nothing is claimed.
abbrev pub pipe_ends : Libc → Monitor
pipe_ends libc = record {
  State = Option Ends;
  allows = may;
  next = then_ends libc;
  excuses = Excused;
}

module _ {ℓ} {A : Type ℓ} {limit : ℕ} (libc : Libc) {Q : A → Option Ends → Type 0} where
  pub Safe-none : (p : Prog A) → ((a : A) → Q a none) → Safe limit (pipe_ends libc) Q p none
  Safe-none (ret a) q = safe_ret (q a)
  Safe-none (call c k) q = safe_call refl λ r _. Safe-none (k r) q
  Safe-none (print l p) q = safe_print (Safe-none p q)
  Safe-none (Posix.if◌then◌else◌ b p p') q = safe_if (λ _. Safe-none p q) (λ _. Safe-none p' q)
  Safe-none fault q = safe_fault tt
  Safe-none spent q = safe_spent
