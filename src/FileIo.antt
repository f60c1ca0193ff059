-- ===== src/FileIo.antt =====
-- file_io.c: a file is written, read, read from a position, and appended to.
pub mod Descriptors
pub mod Disk
pub mod Printing
mod Tests
use linux_system_programming.Base.{
  ℕ, ℤ, pos, fails, positive, Option, none, some, codes, List, [], ◌∷◌,
}
use linux_system_programming.Posix.{
  num, text, Prog, ret, if◌then◌else◌, ◌>>=◌, ◌>>◌, sys, int, printf, perror, fill, poke, c_string,
  ask, close, read, write, open_file, lseek, o_creat, o_rdonly, o_wronly, o_trunc, o_append,
}

abbrev pub file_name : List ℕ
file_name = codes "test.txt"

-- Example 1. The examples give `none` where they call `exit(1)`.
unfoldable pub write_file : Prog (Option (Unit {0}))
write_file = do
  fd ← int (ask (open_file file_name (o_creat ∷ o_wronly ∷ o_trunc ∷ [])))
  if fails fd then (do perror "open"; ret none) else (do
    bytes_written ← int (ask (write fd (codes "Hello, Linux System Programming!\n")))
    printf "Bytes written: %ld\n" (num bytes_written ∷ [])
    int (close fd)
    ret (some tt))

-- Example 2, with what it leaves in the buffer of 256 bytes.
unfoldable pub read_file : List ℕ → Prog (Option (List ℕ))
read_file buffer = do
  fd ← int (ask (open_file file_name (o_rdonly ∷ [])))
  if fails fd then (do perror "open"; ret none) else (do
    bytes_read ← sys (ask (read fd 255))
    let filled = fill buffer bytes_read.bytes
    if positive bytes_read.value
        then (do
          ended ← poke filled bytes_read.value 0
          printf "Read from file: %s" (text (c_string ended) ∷ [])
          int (close fd)
          ret (some ended))
        else (do int (close fd); ret (some filled)))

-- Example 3. A read that fails gives -1, and `buffer[-1]` is written.
unfoldable pub read_five : List ℕ → ℤ → Prog (Unit {0})
read_five buffer fd = do
  int (ask (lseek fd 7))
  bytes_read ← sys (ask (read fd 5))
  ended ← poke (fill buffer bytes_read.bytes) bytes_read.value 0
  printf "Read from position 7: %s\n" (text (c_string ended) ∷ [])
  int (close fd)
  ret tt

unfoldable pub read_position : List ℕ → Prog (Unit {0})
read_position buffer = do fd ← int (ask (open_file file_name (o_rdonly ∷ []))); read_five buffer fd

unfoldable pub append_line : Prog (Unit {0})
append_line = do
  fd ← int (ask (open_file file_name (o_append ∷ o_wronly ∷ [])))
  int (ask (write fd (codes "Appended line.\n")))
  int (close fd)
  ret tt

-- the examples that follow the second
unfoldable pub seek_and_append : Option (List ℕ) → Prog ℤ
seek_and_append none = ret (pos 1)
seek_and_append (some buffer) = do read_position buffer; append_line; ret (pos 0)

unfoldable pub read_and_append : List ℕ → Option (Unit {0}) → Prog ℤ
read_and_append buffer none = ret (pos 1)
read_and_append buffer (some u) = do left ← read_file buffer; seek_and_append left

-- `buffer` is the uninitialised local of 256 bytes.
unfoldable pub file_main : List ℕ → Prog ℤ
file_main buffer = do written ← write_file; read_and_append buffer written
