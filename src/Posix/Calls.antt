-- ===== src/Posix/Calls.antt =====
-- What the programs ask of the system, and what it answers. The kernel and the C library are not
-- part of the repository: their answers are arbitrary, but for what `IsLawful` states.
use linux_system_programming.Base.{
  Bool, String, ℕ, ℤ, List, Option, ◌≤◌, ◌<◌, ◌≡◌, length, pos_part, neg_part,
}

-- an argument of `printf`
pub data Arg : Type 0 where
  num : ℤ → Arg
  text : List ℕ → Arg
  lit : String → Arg
  -- bytes and seconds; the `double` that is printed is their rate in MB/s
  rate : ℕ → ℤ → Arg

-- the second argument of `socket`
pub data SocketType : Type 0 where
  sock_stream sock_dgram : SocketType

-- `struct sockaddr_in` with `sin_family = AF_INET`; `port` and `host` are in network byte order
pub record SockAddr : Type 0 where
  pub port : ℕ
  pub host : ℕ

pub data SockOpt : Type 0 where
  so_reuseaddr so_rcvtimeo so_rcvbuf so_sndbuf tcp_nodelay : SockOpt

-- calls on an open descriptor
pub data Request : Type 0 where
  setsockopt : SockOpt → ℕ → Request
  bind : SockAddr → Request
  listen : ℕ → Request
  connect : SockAddr → Request
  recv : ℕ → Request
  send : List ℕ → Request
  recvfrom : ℕ → Request
  sendto : List ℕ → SockAddr → Request
  fcntl_getfl : Request
  fcntl_setfl : ℕ → Request
  getsockopt_error : Request
  shutdown : Request

-- the second argument of `open`
pub data OpenFlag : Type 0 where
  o_creat o_rdonly o_wronly o_rdwr o_trunc o_append : OpenFlag

-- the argument of `sysconf`
pub data SysconfName : Type 0 where
  sc_nprocessors_onln sc_page_size : SysconfName

-- calls of which the monitors of sockets need not know
pub data Service : Type 0 where
  inet_pton : List ℕ → Service
  time : Service
  select_read : ℕ → List ℤ → ℕ → Service
  select_write : ℕ → List ℤ → ℤ → Service
  pthread_self : Service
  pthread_detach : ℕ → Service
  join : ℕ → Service
  -- the clock of `std::chrono`, in nanoseconds
  clock : Service
  -- directories and links: a directory stream is named by its pointer, 0 is NULL
  opendir : List ℕ → Service
  readdir : ℤ → Service
  closedir : ℤ → Service
  stat : List ℕ → Service
  mkdir : List ℕ → ℕ → Service
  rmdir : List ℕ → Service
  unlink : List ℕ → Service
  getcwd : ℕ → Service
  chdir : List ℕ → Service
  symlink : List ℕ → List ℕ → Service
  readlink : List ℕ → ℕ → Service
  -- what `nftw` does next: a call of its function for a file, or its return
  nftw_next : List ℕ → ℕ → Service
  mkstemp : List ℕ → Service
  write : ℤ → List ℕ → Service
  -- processes: in the child, `fork` gives 0; `execlp` gives a reply only where it failed
  getpid : Service
  getppid : Service
  fork : Service
  wait : Service
  waitpid : ℤ → Service
  sleep : ℕ → Service
  execlp : List String → Service
  -- files and pipes: `pipe` writes both ends; streams are named by their pointers
  open_file : List ℕ → List OpenFlag → Service
  read : ℤ → ℕ → Service
  lseek : ℤ → ℕ → Service
  pipe : Service
  dprintf : ℤ → String → List Arg → Service
  fdopen : ℤ → String → Service
  fgets : ℕ → ℤ → Service
  fprintf : ℤ → String → List Arg → Service
  fclose : ℤ → Service
  -- blocks of memory, named by their addresses; `posix_memalign` gives its error, 0 for none
  realloc : ℤ → ℕ → Service
  calloc : ℕ → ℕ → Service
  posix_memalign : ℕ → ℕ → Service
  mmap : ℕ → ℤ → Service
  msync : ℤ → ℕ → Service
  munmap : ℤ → ℕ → Service
  -- no call: an access to memory through a pointer, which a monitor is to see; its reply is not used
  touch : ℤ → Service
  -- what the system tells of the process, its user and itself
  getpgid : ℤ → Service
  getsid : ℤ → Service
  getuid : Service
  geteuid : Service
  getgid : Service
  getegid : Service
  getpwuid : ℤ → Service
  getgrgid : ℤ → Service
  sysconf : SysconfName → Service

pub data Call : Type 0 where
  socket : SocketType → Call
  accept : ℤ → Call
  on : ℤ → Request → Call
  close : ℤ → Call
  malloc : ℕ → Call
  free : ℤ → Call
  -- `pthread_create` with the block that it passes on, and what the block holds
  pthread_create : ℤ → ℤ → SockAddr → Call
  -- a `std::thread` that is given a descriptor, and the address of its peer
  start_thread : ℤ → SockAddr → Call
  ask : Service → Call

-- What the code reads of a `struct stat` or a `struct dirent`, and the level in a `struct FTW`.
pub record FileStatus : Type 0 where
  pub d_type : ℕ
  pub st_mode : ℕ
  pub st_size : ℕ
  pub st_nlink : ℕ
  pub st_uid : ℤ
  pub st_gid : ℤ
  pub st_mtime : ℤ
  pub level : ℕ

-- What the code reads of a `struct passwd`; `pw_name` is also the name in a `struct group`.
pub record Account : Type 0 where
  pub pw_name : List ℕ
  pub pw_dir : List ℕ
  pub pw_shell : List ℕ

-- The result, and all that a call may write through its pointers: bytes into a buffer, an address,
-- `errno` (or the value of SO_ERROR, or a child's status), a thread, the descriptors that `select` leaves in its set, what
-- is told of a file, of a user or of a group, the two
-- ends of a pipe, the address of a block.
pub record Reply : Type 0 where
  pub value : ℤ
  pub bytes : List ℕ
  pub from : SockAddr
  pub errno : ℤ
  pub thread : ℕ
  pub ready : List ℤ
  pub status : FileStatus
  pub account : Account
  pub ends : ℤ × ℤ
  pub pointer : ℤ

-- The documented result of a read: -1, or the number of bytes, which is at most what was asked for.
abbrev pub IsRead : ℕ → Reply → Type 0
IsRead size r =
    (length r.bytes ≡ pos_part r.value) × (length r.bytes ≤ size) × (neg_part r.value ≤ 1)

-- A send gives -1, or the number of bytes that it took.
abbrev pub IsLawfulRequest : Request → Reply → Type 0
IsLawfulRequest (recv size) r = IsRead size r
IsLawfulRequest (recvfrom size) r = IsRead size r
IsLawfulRequest (send bytes) r = (pos_part r.value ≤ length bytes) × (neg_part r.value ≤ 1)
IsLawfulRequest _ r = Unit

-- A new descriptor is -1, or a number below the limit on open descriptors (RLIMIT_NOFILE).
abbrev pub IsNewDescriptor : ℕ → Reply → Type 0
IsNewDescriptor limit r = (neg_part r.value ≤ 1) × (pos_part r.value < limit)

abbrev pub IsLawful : ℕ → Call → Reply → Type 0
IsLawful limit (socket t) r = IsNewDescriptor limit r
IsLawful limit (accept fd) r = IsNewDescriptor limit r
IsLawful limit (on fd q) r = IsLawfulRequest q r
IsLawful limit (ask (readlink path size)) r = IsRead size r
IsLawful limit (ask (read fd size)) r = IsRead size r
IsLawful limit (ask (fgets size fp)) r = length r.bytes < size
IsLawful limit (ask (mmap size fd)) r = length r.bytes ≡ size
IsLawful limit (ask q) r = Unit
IsLawful limit _ r = Unit

-- Pure functions and macros of the C library and its headers.
pub record Libc : Type 0 where
  pub atoi : List ℕ → ℤ
  pub htons : ℤ → ℕ
  pub ntohs : ℕ → ℤ
  pub htonl : ℕ → ℕ
  pub inet_ntop : ℕ → List ℕ
  pub strerror : ℤ → List ℕ
  pub o_nonblock : ℕ
  pub einprogress : ℤ
  pub inaddr_any : ℕ
  pub fd_setsize : ℕ
  pub basename : List ℕ → List ℕ
  pub dirname : List ℕ → List ℕ
  pub dt_dir : ℕ
  pub dt_reg : ℕ
  pub s_isdir : ℕ → Bool
  pub s_isreg : ℕ → Bool
  pub s_islnk : ℕ → Bool
  pub wifexited : ℤ → Bool
  pub wexitstatus : ℤ → ℤ
  -- `none` is NULL, for a time that cannot be shown
  pub ctime : ℤ → Option (List ℕ)
  pub path_max : ℕ
