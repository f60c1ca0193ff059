-- ===== src/Directory/Listing.antt =====
-- directory_ops.c, examples 1 and 2: the entries of a directory, listed and described.
pub mod Tally
pub mod Streams
use linux_system_programming.Base.{
  ℕ, zero, suc, ℤ, pos, fails, is_zero, not, ltb, ◌==◌, ◌==ℤ◌, ◌&&◌, ◌+◌, ◌*◌, ◌-◌, ◌^◌, bit_and,
  Bool, true, false, String, codes, List, [], ◌∷◌, ◌++◌, length, get_or,
}
use linux_system_programming.Posix.{
  Libc, FileStatus, num, text, lit, Prog, ret, fault, spent, if◌then◌else◌, ◌>>=◌, ◌>>◌, sys, int,
  printf, perror, require, fill, poke, c_string, ask, close, opendir, readdir, closedir, stat,
  mkdir, rmdir, unlink, getcwd, chdir, symlink, readlink, nftw_next, mkstemp, write,
}
use linux_system_programming.Socket.Dispatch.{same_text}

abbrev pub int_max : ℕ
int_max = 2 ^ 31 - 1

-- `n++` on an `int`
abbrev increment : ℕ → Prog ℕ
increment n = if ltb n int_max then ret (suc n) else fault

-- `entry->d_name[0] == '.'`, and neither "." nor ".."
abbrev pub hidden : List ℕ → Bool
hidden name =
    (get_or name 0 0 == 46)
    && (not (same_text name (codes ".")) && not (same_text name (codes "..")))

module _ (libc : Libc) where
  open libc use {dt_dir, dt_reg, s_isdir, s_isreg, s_islnk}

  -- The loop of example 1, with `file_count` and `dir_count`.
  unfoldable pub list_entries : ℕ → ℤ → ℕ → ℕ → Prog (ℕ × ℕ)
  list_entries zero dir file_count dir_count = spent
  list_entries (suc rounds) dir file_count dir_count = do
    entry ← sys (ask (readdir dir))
    if is_zero entry.value
        then ret (file_count, dir_count)
        else if hidden entry.bytes
        then list_entries rounds dir file_count dir_count
        else do
          printf "  %s" (text entry.bytes ∷ [])
          if entry.status.d_type == dt_dir
              then (do
                printf " (directory)\n" []
                dirs ← increment dir_count
                list_entries rounds dir file_count dirs)
              else if entry.status.d_type == dt_reg
              then (do
                printf " (file)\n" []
                files ← increment file_count
                list_entries rounds dir files dir_count)
              else (do printf " (other)\n" []; list_entries rounds dir file_count dir_count)

  -- An example gives false where it leaves `main` by `exit(1)`.
  unfoldable pub list_directory : ℕ → Prog Bool
  list_directory rounds = do
    printf "=== Listing Directory Contents ===\n" []
    dir ← int (ask (opendir (codes ".")))
    if is_zero dir then (do perror "opendir"; ret false) else do
      printf "Contents of %s:\n" (lit "." ∷ [])
      (file_count, dir_count) ← list_entries rounds dir 0 0
      int (ask (closedir dir))
      printf "Total: %d files, %d directories\n\n" (num (pos file_count) ∷ num (pos dir_count) ∷ [])
      ret true

  abbrev type_of : ℕ → String
  type_of mode = elim (s_isdir mode) [
    | true ↦ "Directory"
    | false ↦ elim (s_isreg mode) [
      | true ↦ "Regular file"
      | false ↦ elim (s_islnk mode) [ true ↦ "Symbolic link" | false ↦ "Other" ]
    ]
  ]

  -- the loop of example 2
  unfoldable pub describe_entries : ℕ → ℤ → Prog (Unit {0})
  describe_entries zero dir = spent
  describe_entries (suc rounds) dir = do
    entry ← sys (ask (readdir dir))
    if is_zero entry.value
        then ret tt
        else if get_or entry.bytes 0 0 == 46
        then describe_entries rounds dir
        else do
          st ← sys (ask (stat entry.bytes))
          if is_zero st.value
              then (do
                printf "File: %s\n" (text entry.bytes ∷ [])
                printf "  Size: %ld bytes\n" (num (pos st.status.st_size) ∷ [])
                printf "  Permissions: %o\n" (num (pos (bit_and st.status.st_mode 511)) ∷ [])
                printf "  Links: %ld\n" (num (pos st.status.st_nlink) ∷ [])
                printf "  Type: %s\n" (lit (type_of st.status.st_mode) ∷ [])
                describe_entries rounds dir)
              else describe_entries rounds dir

  unfoldable pub describe_directory : ℕ → Prog Bool
  describe_directory rounds = do
    printf "=== Detailed File Information ===\n" []
    dir ← int (ask (opendir (codes ".")))
    if is_zero dir
        then (do perror "opendir"; ret false)
        else do describe_entries rounds dir; int (ask (closedir dir)); ret true
