-- ===== src/Spec/Meter.antt =====
-- A meter: the number of bytes that the system says it moved. It allows every call.
use linux_system_programming.Base.{ℕ, pos_part, fails, positive, ◌+◌, true, if◌then◌else◌}
use linux_system_programming.Posix.{Request, recv, send, Call, on, Reply, Monitor}

abbrev next_on : ℕ → Request → Reply → ℕ
next_on total (recv size) r = if positive r.value then total + pos_part r.value else total
next_on total (send bytes) r = if fails r.value then total else total + pos_part r.value
next_on total _ r = total

abbrev next : ℕ → Call → Reply → ℕ
next total (on x q) r = next_on total q r
next total _ r = total

abbrev pub meter : Monitor
meter = record { State = ℕ; allows = λ s c. true; next = next; excuses = λ s. ⊥ }
