-- ===== src/FileIo/Printing.antt =====
-- What file_io.c reads back of the file that it wrote.
use linux_system_programming.Base.{ℕ, zero, suc, pos, Bool, true, false, codes, List, [], ◌∷◌}
use linux_system_programming.Posix.{Line, out, ◌>>◌, num, text}
use linux_system_programming.FileIo.Disk.{Disk}
use linux_system_programming.FileIo.{file_name}

abbrev no_zero : List ℕ → Bool
no_zero [] = true
no_zero (zero ∷ b) = false
no_zero (suc c ∷ b) = no_zero b

abbrev pub hello : List ℕ
hello = codes "Hello, Linux System Programming!\n"

abbrev pub appended : List ℕ
appended = codes "Hello, Linux System Programming!\nAppended line.\n"

-- the lines that `main` prints
abbrev pub told : List Line
told =
    out "Bytes written: %ld\n" (num (pos 33) ∷ [])
    ∷ out "Read from file: %s" (text hello ∷ [])
    ∷ out "Read from position 7: %s\n" (text (codes "Linux") ∷ [])
    ∷ []

abbrev linux : List ℕ
linux = codes "Linux"

-- the file that holds `bytes`, open at an offset
abbrev file_at : Disk → List ℕ → ℕ → Bool → Disk
file_at d bytes offset appends = record {
  files = (file_name, bytes) ∷ d.files;
  path = file_name;
  offset = offset;
  appends = appends;
}

abbrev final : Disk → Disk
final d = file_at (file_at d hello 0 true) appended 48 true
