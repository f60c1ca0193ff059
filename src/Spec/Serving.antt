-- ===== src/Spec/Serving.antt =====
-- The order of a server's calls: `bind` only on the new socket, `listen` only once `bind` succeeded,
-- `accept` only on the listening socket, `recvfrom` only on the bound socket.
pub mod Rules
use linux_system_programming.Base.{ℤ, fails, ◌==ℤ◌, Bool, true, false, if◌then◌else◌}
use linux_system_programming.Posix.{
  Request, bind, listen, recvfrom, Call, socket, accept, on, Reply, Monitor,
}

pub data Stage : Type 0 where
  start : Stage
  created : ℤ → Stage
  bound : ℤ → Stage
  listening : ℤ → Stage

abbrev is_created : Stage → ℤ → Bool
is_created (created y) x = x ==ℤ y
is_created _ x = false

abbrev is_bound : Stage → ℤ → Bool
is_bound (bound y) x = x ==ℤ y
is_bound _ x = false

abbrev is_listening : Stage → ℤ → Bool
is_listening (listening y) x = x ==ℤ y
is_listening _ x = false

abbrev allows_on : Stage → ℤ → Request → Bool
allows_on s x (bind a) = is_created s x
allows_on s x (listen n) = is_bound s x
allows_on s x (recvfrom n) = is_bound s x
allows_on s x _ = true

abbrev allows : Stage → Call → Bool
allows s (accept x) = is_listening s x
allows s (on x q) = allows_on s x q
allows s _ = true

abbrev next_on : Stage → ℤ → Request → Reply → Stage
next_on s x (bind a) r = if fails r.value then s else bound x
next_on s x (listen n) r = if fails r.value then s else listening x
next_on s x _ r = s

abbrev next : Stage → Call → Reply → Stage
next s (socket t) r = if fails r.value then s else created r.value
next s (on x q) r = next_on s x q r
next s _ r = s

-- A server that returned before it was listening, or before it had an address.
abbrev pub NeverListened : Stage → Type 0
NeverListened (listening x) = ⊥
NeverListened _ = Unit

abbrev pub NeverBound : Stage → Type 0
NeverBound (bound x) = ⊥
NeverBound (listening x) = ⊥
NeverBound _ = Unit

abbrev pub serving : Monitor
serving = record { State = Stage; allows = allows; next = next; excuses = λ s. ⊥ }
