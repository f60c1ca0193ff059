-- ===== src/Directory/Program.antt =====
-- directory_ops.c, `main`: the walk, the links, the temporary file, and all the examples in order.
pub mod Streams
pub mod Fuel
use linux_system_programming.Base.{
  ℕ, zero, suc, ℤ, pos, fails, is_zero, not, ltb, ◌==◌, ◌==ℤ◌, ◌&&◌, ◌+◌, ◌*◌, ◌-◌, ◌^◌, bit_and,
  Bool, true, false, String, codes, List, [], ◌∷◌, ◌++◌, length, get_or,
}
use linux_system_programming.Posix.{
  Libc, FileStatus, num, text, lit, Prog, ret, fault, spent, if◌then◌else◌, ◌>>=◌, ◌>>◌, sys, int,
  printf, perror, require, fill, poke, c_string, ask, close, opendir, readdir, closedir, stat,
  mkdir, rmdir, unlink, getcwd, chdir, symlink, readlink, nftw_next, mkstemp, write,
}
use linux_system_programming.Socket.Dispatch.{same_text}
use linux_system_programming.Directory.Listing.{list_directory, describe_directory}
use linux_system_programming.Directory.Creating.{newdir, create_directories}

module _ (libc : Libc) where
  open libc use {basename, dirname, s_isdir}

  -- the function that `nftw` calls
  unfoldable pub process_file : List ℕ → FileStatus → Prog ℤ
  process_file fpath status = do
    printf "%*s%s" (num (pos (status.level * 2)) ∷ lit "" ∷ text (basename fpath) ∷ [])
    if s_isdir status.st_mode
        then (do printf "/\n" []; ret (pos 0))
        else (do printf " (%ld bytes)\n" (num (pos status.st_size) ∷ []); ret (pos 0))

  -- `nftw`, which calls `process_file` until it returns; 1 stands for a call, for a return its result.
  unfoldable pub walk : ℕ → Prog (Unit {0})
  walk zero = spent
  walk (suc rounds) = do
    visit ← sys (ask (nftw_next newdir 20))
    if visit.value ==ℤ pos 1
        then (do process_file visit.bytes visit.status; walk rounds)
        else if fails visit.value
        then perror "nftw"
        else ret tt

  unfoldable pub traverse : ℕ → Prog (Unit {0})
  traverse rounds = do printf "\n=== Recursive Directory Traversal ===\n" []; walk rounds

  -- `original_dir` is the uninitialised local. `getcwd` gives NULL, or writes a text and its zero.
  unfoldable pub change_directory : List ℕ → Prog (Unit {0})
  change_directory original_dir = do
    printf "\n=== Changing Directories ===\n" []
    cwd ← sys (ask (getcwd 256))
    let original = fill original_dir cwd.bytes
    if not (is_zero cwd.value)
        then printf "Original directory: %s\n" (text (c_string original) ∷ [])
        else ret tt
    r ← int (ask (chdir newdir))
    if is_zero r
        then (do
          current ← sys (ask (getcwd 256))
          if not (is_zero current.value)
              then printf "Changed to: %s\n" (text (c_string current.bytes) ∷ [])
              else ret tt
          int (ask (chdir (c_string original)))
          ret tt)
        else perror "chdir"

  -- `link_target` is the uninitialised local of 256 bytes.
  unfoldable pub symbolic_link : List ℕ → Prog (Unit {0})
  symbolic_link link_target = do
    printf "\n=== Symbolic Links ===\n" []
    let linkname = codes "test_link"
    r ← int (ask (symlink newdir linkname))
    if is_zero r
        then (do
          printf "Created symbolic link: %s -> %s\n" (text linkname ∷ text newdir ∷ [])
          len ← sys (ask (readlink linkname 255))
          if not (fails len.value)
              then (do
                ended ← poke (fill link_target len.bytes) len.value 0
                printf "Symlink points to: %s\n" (text (c_string ended) ∷ []))
              else ret tt)
        else perror "symlink"

  unfoldable pub path_operations : Prog (Unit {0})
  path_operations = do
    printf "\n=== Path Operations ===\n" []
    let filepath = codes "test_directory/file.txt"
    printf "Full path: %s\n" (text filepath ∷ [])
    printf "Directory: %s\n" (text (dirname filepath) ∷ [])
    printf "Filename: %s\n" (text (basename filepath) ∷ [])

-- `mkstemp` writes the name that it chose over its argument.
unfoldable pub temporary_file : Prog (Unit {0})
temporary_file = do
  printf "\n=== Temporary Files ===\n" []
  temp ← sys (ask (mkstemp (codes "/tmp/tmpfileXXXXXX")))
  if not (fails temp.value)
      then (do
        printf "Created temporary file: %s\n" (text temp.bytes ∷ [])
        int (ask (write temp.value (codes "Temporary data")))
        int (close temp.value)
        int (ask (unlink temp.bytes))
        printf "Deleted temporary file\n" [])
      else perror "mkstemp"

unfoldable pub clean_up : Prog (Unit {0})
clean_up = do
  printf "\n=== Cleanup ===\n" []
  int (ask (unlink (codes "test_link")))
  int (ask (rmdir (codes "test_directory/subdir1/subdir2")))
  int (ask (rmdir (codes "test_directory/subdir1")))
  int (ask (rmdir (codes "test_directory")))
  printf "Cleaned up test directories\n" []

unfoldable pub directory_main : Libc → ℕ → List ℕ → List ℕ → Prog ℤ
directory_main libc rounds original_dir link_target = do
  listed ← list_directory libc rounds
  if not listed then ret (pos 1) else do
    described ← describe_directory libc rounds
    if not described then ret (pos 1) else do
      create_directories
      traverse libc rounds
      change_directory libc original_dir
      symbolic_link libc link_target
      path_operations libc
      temporary_file
      clean_up
      ret (pos 0)
