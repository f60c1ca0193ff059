-- ===== src/FileIo/Disk.antt =====
-- Regular files: what `open`, `write`, `lseek` and `read` give of the files that they change. One file is
-- open at a time, and the descriptor that a call names is not looked at here.
use linux_system_programming.Base.{
  ℕ, suc, ℤ, pos, fails, ◌+◌, ◌≤◌, ◌≡◌, refl, ap, arith, Bool, true, false, not, ◌||◌,
  if◌then◌else◌, Option, none, some, List, [], ◌∷◌, ◌++◌, length, take, drop,
}
use linux_system_programming.Posix
use linux_system_programming.Posix.{
  Call, Reply, Service, ask, close, open_file, write, lseek, read, OpenFlag, o_creat, o_trunc,
  o_append, Event, did, waits, printed, printed_lines, Line, Prog, ret, call, print, Run, Outcome,
  returned, run,
}
use linux_system_programming.Socket.Dispatch.{same_text}

-- The contents of the files by name, of which the first of a name counts, and the open one: its name,
-- its offset, and whether it was opened with `O_APPEND`.
pub record Disk : Type 0 where
  pub files : List (List ℕ × List ℕ)
  pub path : List ℕ
  pub offset : ℕ
  pub appends : Bool

abbrev pub find : List (List ℕ × List ℕ) → List ℕ → Option (List ℕ)
find [] p = none
find ((q, content) ∷ files) p = if same_text p q then some content else find files p

abbrev found : Option (List ℕ) → Bool
found none = false
found (some content) = true

abbrev content_of : Option (List ℕ) → List ℕ
content_of none = []
content_of (some content) = content

abbrev content : Disk → List ℕ
content d = content_of (find d.files d.path)

abbrev creates : List OpenFlag → Bool
creates [] = false
creates (o_creat ∷ flags) = true
creates (_ ∷ flags) = creates flags

abbrev truncates : List OpenFlag → Bool
truncates [] = false
truncates (o_trunc ∷ flags) = true
truncates (_ ∷ flags) = truncates flags

abbrev appending : List OpenFlag → Bool
appending [] = false
appending (o_append ∷ flags) = true
appending (_ ∷ flags) = appending flags

abbrev opens : Disk → List ℕ → List OpenFlag → Bool
opens d path flags = creates flags || found (find d.files path)

-- where a write begins
abbrev place : Disk → ℕ
place d = if d.appends then length (content d) else d.offset

abbrev after : Disk → Service → Disk
after d (open_file path flags) =
    if opens d path flags
    then record {
      files =
          if truncates flags || not (found (find d.files path))
          then (path, []) ∷ d.files
          else d.files;
      path = path;
      offset = 0;
      appends = appending flags;
    }
    else d
after d (write fd bytes) = record d {
  files =
      (d.path, take (place d) (content d) ++ (bytes ++ drop (place d + length bytes) (content d)))
      ∷ d.files;
  offset = place d + length bytes;
}
after d (lseek fd n) = record d { offset = n }
after d (read fd size) = record d {
  offset = d.offset + length (take size (drop d.offset (content d)));
}
after d s = d

-- A file can be opened if it is there or may be made; a write takes all; a read gives what follows the
-- offset.
abbrev Answers : Disk → Service → Reply → Type 0
Answers d (open_file path flags) r = fails r.value ≡ not (opens d path flags)
Answers d (write fd bytes) r = r.value ≡ pos (length bytes)
Answers d (lseek fd n) r = r.value ≡ pos n
Answers d (read fd size) r =
    (r.bytes ≡ take size (drop d.offset (content d))) × (r.value ≡ pos (length r.bytes))
Answers d s r = Unit

-- The replies of a trace are those of regular files that the calls of the same trace change.
abbrev pub IsRegular : Disk → List Event → Type 0
IsRegular d [] = Unit
IsRegular d (did (ask s) r ∷ es) = Answers d s r × IsRegular (after d s) es
IsRegular d (did c r ∷ es) = IsRegular d es
IsRegular d (waits c ∷ es) = IsRegular d es
IsRegular d (printed l ∷ es) = IsRegular d es

-- the files after the calls of a trace
abbrev pub left_by : Disk → List Event → Disk
left_by d [] = d
left_by d (did (ask s) r ∷ es) = left_by (after d s) es
left_by d (did c r ∷ es) = left_by d es
left_by d (waits c ∷ es) = left_by d es
left_by d (printed l ∷ es) = left_by d es

-- what a run prints, how it ends, and the files that it leaves
abbrev pub shown : Disk → Run ℤ → List Line × Outcome ℤ × Disk
shown d r = (printed_lines r.events, r.outcome, left_by d r.events)

-- On regular files `p` prints `ls`, leaves `e` and returns 0, with `n` replies or more.
pub data Tells : Prog ℤ → Disk → List Line → Disk → ℕ → Type 0 where
  tells_end : {d : Disk} {n : ℕ} → Tells (ret (pos 0)) d [] d n
  tells_ask :
      {s : Service} {k : Reply → Prog ℤ} {d e : Disk} {ls : List Line} {n : ℕ}
      → ((r : Reply) → Answers d s r → Tells (k r) (after d s) ls e n)
      → Tells (call (ask s) k) d ls e (suc n)
  tells_close :
      {fd : ℤ} {k : Reply → Prog ℤ} {d e : Disk} {ls : List Line} {n : ℕ}
      → ((r : Reply) → Tells (k r) d ls e n)
      → Tells (call (close fd) k) d ls e (suc n)
  tells_print :
      {l l' : Line} {p : Prog ℤ} {d e : Disk} {ls : List Line} {n : ℕ}
      → l ≡ l'
      → Tells p d ls e n
      → Tells (print l p) d (l' ∷ ls) e n
  tells_then :
      {b : Bool} {p q : Prog ℤ} {d e : Disk} {ls : List Line} {n : ℕ}
      → b ≡ true
      → Tells p d ls e n
      → Tells (Posix.if◌then◌else◌ b p q) d ls e n
  tells_else :
      {b : Bool} {p q : Prog ℤ} {d e : Disk} {ls : List Line} {n : ℕ}
      → b ≡ false
      → Tells q d ls e n
      → Tells (Posix.if◌then◌else◌ b p q) d ls e n

abbrev and_line : Line → List Line × Outcome ℤ × Disk → List Line × Outcome ℤ × Disk
and_line l r = (l ∷ r.0, r.1, r.2)

pub Tells-shown :
    {p : Prog ℤ} {d e : Disk} {ls : List Line} {n : ℕ}
    → Tells p d ls e n
    → (rs : List Reply) → n ≤ length rs
    → IsRegular d (run p rs).events
    → shown d (run p rs) ≡ (ls, returned (pos 0), e)
unfolding run
Tells-shown tells_end rs le h = refl
Tells-shown (tells_ask k) [] le h = absurd (omega arith)
Tells-shown (tells_ask k) (r ∷ rs) le h = Tells-shown (k r h.0) rs (omega arith) h.1
Tells-shown (tells_close k) [] le h = absurd (omega arith)
Tells-shown (tells_close k) (r ∷ rs) le h = Tells-shown (k r) rs (omega arith) h
Tells-shown (tells_print {l' = l'} q k) rs le h = rw q (ap (and_line l') (Tells-shown k rs le h))
Tells-shown (tells_then {b = true} q k) rs le h = Tells-shown k rs le h
Tells-shown (tells_then {b = false} q k) rs le h = cc
Tells-shown (tells_else {b = true} q k) rs le h = cc
Tells-shown (tells_else {b = false} q k) rs le h = Tells-shown k rs le h
