-- ===== src/Socket/Sample.antt =====
-- A system for the tests: its pure functions, and the replies that histories are made of.
use linux_system_programming.Base.{true, some, ℕ, ℤ, pos, minus_one, List, [], ◌∷◌, length, ◌==◌}
use linux_system_programming.Posix.{Libc, Reply, SockAddr, FileStatus}

abbrev pub sample : Libc
sample = record {
  atoi = λ _. pos 80;
  htons = λ _. 20480;
  ntohs = λ _. pos 80;
  htonl = λ n. n;
  inet_ntop = λ _. 49 ∷ [];
  strerror = λ _. 63 ∷ [];
  o_nonblock = 2048;
  einprogress = pos 115;
  inaddr_any = 0;
  fd_setsize = 1024;
  basename = λ name. name;
  dirname = λ name. 46 ∷ [];
  dt_dir = 4;
  dt_reg = 8;
  wifexited = λ status. true;
  wexitstatus = λ status. status;
  ctime = λ time. some (10 ∷ []);
  path_max = 4096;
  s_isdir = λ mode. mode == 16384;
  s_isreg = λ mode. mode == 32768;
  s_islnk = λ mode. mode == 40960;
}

abbrev pub peer : SockAddr
peer = record { port = 20480; host = 16777343 }

abbrev pub plain_file : FileStatus
plain_file = record {
  d_type = 8;
  st_mode = 32768;
  st_size = 3;
  st_nlink = 1;
  st_uid = pos 0;
  st_gid = pos 0;
  st_mtime = pos 0;
  level = 0;
}

abbrev pub gives : ℤ → Reply
gives n = record {
  value = n;
  bytes = [];
  from = peer;
  errno = pos 0;
  thread = 7;
  ready = [];
  status = plain_file;
  account = record { pw_name = []; pw_dir = []; pw_shell = [] };
  ends = (pos 3, pos 4);
  pointer = pos 64;
}

abbrev pub failed : ℤ → Reply
failed code = record (gives minus_one) { errno = code }

abbrev pub brings : List ℕ → Reply
brings bytes = record (gives (pos (length bytes))) { bytes = bytes }
