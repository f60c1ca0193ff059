-- ===== src/Spec/Asking.antt =====
-- The order of a client's calls: the message, and nothing else, is handed to `send` on the connected
-- socket (for datagrams, to `sendto` on the new one), and a receive comes only after that did not fail.
-- How much of the message the system took is not looked at.
pub mod Rules
use linux_system_programming.Base.{
  ℤ, minus_one, pos, fails, ◌==ℤ◌, ◌≡◌, Bool, true, false, if◌then◌else◌, ◌&&◌, ℕ, List,
}
use linux_system_programming.Posix.{
  Request, connect, send, recv, sendto, recvfrom, Call, socket, on, Reply, Monitor,
}
use linux_system_programming.Spec.Echo.{same_bytes}

pub data Stage : Type 0 where
  start : Stage
  created : ℤ → Stage
  connected : ℤ → Stage
  sent : ℤ → Stage
  -- a receive did not fail; where it gave 0 on a connection, the server closed that
  answered : ℤ → Stage

abbrev is_created : Stage → ℤ → Bool
is_created (created y) x = x ==ℤ y
is_created _ x = false

abbrev is_connected : Stage → ℤ → Bool
is_connected (connected y) x = x ==ℤ y
is_connected _ x = false

abbrev is_sent : Stage → ℤ → Bool
is_sent (sent y) x = x ==ℤ y
is_sent _ x = false

abbrev allows_on : List ℕ → Stage → ℤ → Request → Bool
allows_on message s x (connect a) = is_created s x
allows_on message s x (sendto bytes a) = is_created s x && same_bytes bytes message
allows_on message s x (send bytes) = is_connected s x && same_bytes bytes message
allows_on message s x (recv n) = is_sent s x
allows_on message s x (recvfrom n) = is_sent s x
allows_on message s x _ = true

abbrev allows : List ℕ → Stage → Call → Bool
allows message s (on x q) = allows_on message s x q
allows message s _ = true

abbrev next_on : Stage → ℤ → Request → Reply → Stage
next_on s x (connect a) r = if fails r.value then s else connected x
next_on s x (send bytes) r = if fails r.value then s else sent x
next_on s x (sendto bytes a) r = if fails r.value then s else sent x
next_on s x (recv n) r = if fails r.value then s else answered x
next_on s x (recvfrom n) r = if fails r.value then s else answered x
next_on s x _ r = s

abbrev next : Stage → Call → Reply → Stage
next s (socket t) r = if fails r.value then s else created r.value
next s (on x q) r = next_on s x q r
next s _ r = s

-- The promise of a client that is to send `message`.
abbrev pub asking : List ℕ → Monitor
asking message = record { State = Stage; allows = allows message; next = next; excuses = λ s. ⊥ }

-- A client's result: 0 exactly if a receive did not fail, and -1 otherwise.
abbrev pub Reported : ℤ → Stage → Type 0
Reported v (answered x) = v ≡ pos 0
Reported v _ = v ≡ minus_one
