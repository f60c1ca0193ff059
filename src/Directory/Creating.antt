-- ===== src/Directory/Creating.antt =====
-- directory_ops.c, example 3: a nested directory is made prefix by prefix.
pub mod Prefixes
use linux_system_programming.Base.{
  ℕ, zero, suc, ℤ, pos, fails, is_zero, not, ltb, ◌==◌, ◌==ℤ◌, ◌&&◌, ◌+◌, ◌*◌, ◌-◌, ◌^◌, bit_and,
  Bool, true, false, String, codes, List, [], ◌∷◌, ◌++◌, length, get_or,
}
use linux_system_programming.Posix.{
  Libc, FileStatus, num, text, lit, Prog, ret, fault, spent, if◌then◌else◌, ◌>>=◌, ◌>>◌, sys, int,
  printf, perror, require, fill, poke, c_string, ask, close, opendir, readdir, closedir, stat,
  mkdir, rmdir, unlink, getcwd, chdir, symlink, readlink, nftw_next, mkstemp, write,
}
use linux_system_programming.Socket.Dispatch.{same_text}

abbrev pub slash : ℕ
slash = 47

-- `path` and `temp` have 256 bytes: `strncat` adds a byte and a terminating zero.
abbrev pub capacity : ℕ
capacity = 256

-- The loop that makes a directory at each slash of `nested`; `p` is the rest of the text.
unfoldable pub make_prefixes : List ℕ → List ℕ → Prog (Unit {0})
make_prefixes [] path = ret tt
make_prefixes (c ∷ p) path = do
  require (ltb (suc (length path)) capacity)
  let path' = path ++ c ∷ []
  if c == slash
      then (do int (ask (mkdir path' 493)); make_prefixes p path')
      else make_prefixes p path'

abbrev pub newdir : List ℕ
newdir = codes "test_directory"

abbrev pub nested : List ℕ
nested = newdir ++ codes "/subdir1/subdir2"

unfoldable pub nested_directories : Prog (Unit {0})
nested_directories = do
  make_prefixes nested []
  int (ask (mkdir nested 493))
  printf "Created nested directory: %s\n" (text nested ∷ [])

unfoldable pub create_directories : Prog (Unit {0})
create_directories = do
  printf "\n=== Creating Directories ===\n" []
  r ← int (ask (mkdir newdir 493))
  if is_zero r then printf "Created directory: %s\n" (text newdir ∷ []) else perror "mkdir"
  nested_directories
