-- ===== src/FileIo/Descriptors.antt =====
-- The one descriptor of file_io.c.
use linux_system_programming.Base.{
  ℕ, ℤ, fails, ◌==ℤ◌, ◌≡◌, Bool, true, false, Option, none, some, if◌then◌else◌, List, length,
}
use linux_system_programming.Posix
use linux_system_programming.Posix.{
  Call, close, ask, read, write, open_file, lseek, Reply, Monitor, poke, in_range, ◌>>=◌,
}

-- The open descriptor, and whether a read has failed.
pub record Files : Type 0 where
  pub file : Option ℤ
  pub unread : Bool

abbrev pub no_file : Bool → Files
no_file u = record { file = none; unread = u }

abbrev is_file : Files → ℤ → Bool
is_file s fd = elim s.file [ none ↦ fails fd | some y ↦ fd ==ℤ y ]

-- A file is opened only when none is open, and only the open one is used and closed,
-- or -1 where none is.
abbrev may_ask : Files → Posix.Service → Bool
may_ask s (open_file path flags) = elim s.file [ none ↦ true | some y ↦ false ]
may_ask s (read fd size) = is_file s fd
may_ask s (write fd bytes) = is_file s fd
may_ask s (lseek fd offset) = is_file s fd
may_ask s q = false

abbrev may : Files → Call → Bool
may s (close fd) = is_file s fd
may s (ask q) = may_ask s q
may s _ = false

abbrev then_asked : Files → Posix.Service → Reply → Files
then_asked s (open_file path flags) r =
    if fails r.value then s else record s { file = some r.value }
then_asked s (read fd size) r = if fails r.value then record s { unread = true } else s
then_asked s q r = s

abbrev then_left : Files → Call → Reply → Files
then_left s (close fd) r = record s { file = none }
then_left s (ask q) r = then_asked s q r
then_left s _ r = s

abbrev pub files : Monitor
files = record { State = Files; allows = may; next = then_left; excuses = λ s. s.unread ≡ true }

abbrev pub IsClosed {ℓ} : {A : Type ℓ} → A → Files → Type 0
IsClosed a s = s ≡ no_file s.unread

-- the buffer, where there is one, has kept its length
abbrev IsLong : Option (List ℕ) → Type 0
IsLong none = Unit
IsLong (some buffer) = length buffer ≡ 256
