-- ===== src/Pipes/Discipline/Steps.antt =====
-- The steps of the processes: closing each of the four ends of two pipes.
use linux_system_programming.Base.{
  ℕ, ℤ, ◌==ℤ◌, ==ℤ_self, ◌≡◌, refl, Bool, true, false, ◌&&◌, ◌||◌, Option, none, some, ◌⊎◌, inl,
  inr, List, length, fails, Bool-cases, arith,
}
use linux_system_programming.Posix.{
  Libc, close, ask, pipe, read, poke, fill, in_range-fill, Reply, Prog, call, fault, if◌then◌else◌,
  ◌>>=◌, Safe, safe_call, safe_if, safe_fault, Safe-check,
}
use linux_system_programming.Pipes.Ends.{Pipe, Ends, pipe_ends, is_end, clash, may_read, Safe-none}

-- a pipe with these ends, of which those marked are open
abbrev pub at : ℤ × ℤ → Bool → Bool → Pipe
at ends r w = record { reader = ends.0; writer = ends.1; reads = r; writes = w }

abbrev pub with_streams : Pipe → Pipe → Option (ℤ × ℤ) → Option (ℤ × ℤ) → Bool → Ends
with_streams p q source sink u = record {
  first = p;
  second = q;
  source = source;
  sink = sink;
  untested = u;
}

module _ {A : Type 0} {limit : ℕ} (libc : Libc) {Q : A → Option Ends → Type 0} {k : Reply → Prog A}
    (p q : ℤ × ℤ) {source sink : Option (ℤ × ℤ)} {u : Bool} where
  pub Safe-close_reader :
      {a b c : Bool}
      → ((r : Reply)
          → Safe limit
              (pipe_ends libc)
              Q
              (k r)
              (some (with_streams (at p false a) (at q b c) source sink u)))
      → Safe limit
          (pipe_ends libc)
          Q
          (call (close p.0) k)
          (some (with_streams (at p true a) (at q b c) source sink u))
  Safe-close_reader h = safe_call (rw (==ℤ_self p.0) refl) λ r _. rw (==ℤ_self p.0) (h r)

  pub Safe-close_writer :
      {a b : Bool}
      → ((r : Reply)
          → Safe limit
              (pipe_ends libc)
              Q
              (k r)
              (some (with_streams (at p false false) (at q a b) source sink u)))
      → Safe limit
          (pipe_ends libc)
          Q
          (call (close p.1) k)
          (some (with_streams (at p false true) (at q a b) source sink u))
  Safe-close_writer h = safe_call (rw (==ℤ_self p.1) refl) λ r _. rw (==ℤ_self p.1) (h r)

  -- the reading end is still open, and another
  pub Safe-close_writer_first :
      {a b : Bool}
      → (p.1 ==ℤ p.0) ≡ false
      → ((r : Reply)
          → Safe limit
              (pipe_ends libc)
              Q
              (k r)
              (some (with_streams (at p true false) (at q a b) source sink u)))
      → Safe limit
          (pipe_ends libc)
          Q
          (call (close p.1) k)
          (some (with_streams (at p true true) (at q a b) source sink u))
  Safe-close_writer_first e h =
      safe_call (rw (e, ==ℤ_self p.1) refl) λ r _. rw (e, ==ℤ_self p.1) (h r)

  pub Safe-close_reader_second :
      {a b c : Bool}
      → is_end (at p a b) q.0 ≡ false
      → ((r : Reply)
          → Safe limit
              (pipe_ends libc)
              Q
              (k r)
              (some (with_streams (at p a b) (at q false c) source sink u)))
      → Safe limit
          (pipe_ends libc)
          Q
          (call (close q.0) k)
          (some (with_streams (at p a b) (at q true c) source sink u))
  Safe-close_reader_second e h =
      safe_call (rw (e, ==ℤ_self q.0) refl) λ r _. rw (e, ==ℤ_self q.0) (h r)

  pub Safe-close_writer_second :
      {a b : Bool}
      → is_end (at p a b) q.1 ≡ false
      → ((r : Reply)
          → Safe limit
              (pipe_ends libc)
              Q
              (k r)
              (some (with_streams (at p a b) (at q false false) source sink u)))
      → Safe limit
          (pipe_ends libc)
          Q
          (call (close q.1) k)
          (some (with_streams (at p a b) (at q false true) source sink u))
  Safe-close_writer_second e h = safe_call (rw (e, ==ℤ_self q.1) refl) λ r _. rw e (h r)

  pub Safe-close_writer_second_first :
      {a b : Bool}
      → is_end (at p a b) q.1 ≡ false
      → (q.1 ==ℤ q.0) ≡ false
      → ((r : Reply)
          → Safe limit
              (pipe_ends libc)
              Q
              (k r)
              (some (with_streams (at p a b) (at q true false) source sink u)))
      → Safe limit
          (pipe_ends libc)
          Q
          (call (close q.1) k)
          (some (with_streams (at p a b) (at q true true) source sink u))
  Safe-close_writer_second_first e e' h =
      safe_call (rw (e, e', ==ℤ_self q.1) refl) λ r _. rw (e, e') (h r)

-- The second pipe's ends are two, and none of the first pipe's.
abbrev pub Apart : ℤ × ℤ → ℤ × ℤ → Type 0
Apart p q =
    ((q.1 ==ℤ q.0) ≡ false)
    × ((q.1 ==ℤ p.0) ≡ false)
    × ((a b : Bool) → is_end (at p a b) q.0 ≡ false)
    × ((a b : Bool) → is_end (at p a b) q.1 ≡ false)

neither : (x y a b : Bool) → x ≡ false → y ≡ false → ((a && x) || (b && y)) ≡ false
neither x y true true e e' = rw (e, e') refl
neither x y true false e e' = rw e refl
neither x y false true e e' = e'
neither x y false false e e' = refl

none_of :
    (v w x y z : Bool)
    → (v || w || x || y || z) ≡ false
    → (v ≡ false) × (w ≡ false) × (x ≡ false) × (y ≡ false) × (z ≡ false)
none_of false false false false false e = (refl, refl, refl, refl, refl)
none_of _ _ _ _ _ e = absurd cc

pub clash-Apart : (p q : ℤ × ℤ) (a b : Bool) → clash (at p a b) q ≡ false → Apart p q
clash-Apart p q a b e =
    let f = none_of _ _ _ _ _ e in
    (f.4, f.2, λ a b. neither _ _ a b f.0 f.1, λ a b. neither _ _ a b f.2 f.3)

-- A pipe that failed, or whose ends are in use, leaves nothing to show.
module _ {A : Type 0} {limit : ℕ} (libc : Libc) {Q : A → Option Ends → Type 0} where
  pub Safe-pipe_first :
      {k : Reply → Prog A} (x y : ℤ × ℤ) {a b : Bool} {u : Bool}
      → ((r : A) → Q r none)
      → ((r : Reply)
          → fails r.value ≡ false
          → (r.ends.1 ==ℤ r.ends.0) ≡ false
          → Safe limit
              (pipe_ends libc)
              Q
              (k r)
              (some (with_streams (at r.ends true true) (at y a b) none none u)))
      → Safe limit
          (pipe_ends libc)
          Q
          (call (ask pipe) k)
          (some (with_streams (at x false false) (at y a b) none none u))
  Safe-pipe_first {k = k} x y n h = safe_call refl λ r _. elim (Bool-cases (fails r.value)) [
    | inl e ↦ rw e (Safe-none libc (k r) n)
    | inr e ↦ elim (Bool-cases (r.ends.1 ==ℤ r.ends.0)) [
      | inl c ↦ rw (e, c) (Safe-none libc (k r) n)
      | inr c ↦ rw (e, c) (h r e c)
    ]
  ]

  pub Safe-pipe_second :
      {k : Reply → Prog A} (p y : ℤ × ℤ) {u : Bool}
      → ((r : A) → Q r none)
      → ((r : Reply)
          → fails r.value ≡ false
          → Apart p r.ends
          → Safe limit
              (pipe_ends libc)
              Q
              (k r)
              (some (with_streams (at p true true) (at r.ends true true) none none u)))
      → Safe limit
          (pipe_ends libc)
          Q
          (call (ask pipe) k)
          (some (with_streams (at p true true) (at y false false) none none u))
  Safe-pipe_second {k = k} p y n h = safe_call refl λ r _. elim (Bool-cases (fails r.value)) [
    | inl e ↦ rw e (Safe-none libc (k r) n)
    | inr e ↦ elim (Bool-cases (clash (at p true true) r.ends)) [
      | inl c ↦ rw (e, c) (Safe-none libc (k r) n)
      | inr c ↦ rw (e, c) (h r e (clash-Apart p r.ends true true c))
    ]
  ]

  -- a check whose failure is excused
  pub Safe-excused_check :
      {b : Bool} {p : Prog A} {s : Ends}
      → (b ≡ true) ⊎ (s.untested ≡ true)
      → Safe limit (pipe_ends libc) Q p (some s)
      → Safe limit (pipe_ends libc) Q (if b then p else fault) (some s)
  Safe-excused_check (inl e) h = Safe-check e h
  Safe-excused_check (inr e) h = safe_if (λ _. h) (λ _. safe_fault e)

  -- a read into a buffer of 256 bytes, and the zero that is put after what was read
  pub Safe-read_poke :
      {k : List ℕ → Prog A} (buffer : List ℕ) (fd : ℤ) (s : Ends)
      → length buffer ≡ 256
      → may_read s fd ≡ true
      → ((left : List ℕ) (u : Bool)
          → Safe limit (pipe_ends libc) Q (k left) (some (record s { untested = u })))
      → Safe limit
          (pipe_ends libc)
          Q
          (call (ask (read fd 255)) (λ r. poke (fill buffer r.bytes) r.value 0 >>= k))
          (some s)
  Safe-read_poke buffer fd s le m h = safe_call m λ r l. elim (Bool-cases (fails r.value)) [
    | inl e ↦ rw e (safe_if (λ _. h _ true) (λ _. safe_fault refl))
    | inr e ↦ rw e (Safe-check (in_range-fill buffer 255 (omega arith) r l e) (h _ s.untested))
  ]
