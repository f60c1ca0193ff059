-- ===== src/Cpp/Socket.antt =====
-- The class `Socket`: a descriptor with an owner.
use linux_system_programming.Base.{
  ℕ, ℤ, pos_part, minus_one, fails, not, bit_or, bit_and, ◌-◌, Bool, true, false, List, String,
}
use linux_system_programming.Posix
use linux_system_programming.Posix.{
  Libc, SockAddr, SocketType, SockOpt, Request, Call, Reply, Prog, ret, call, on, so_reuseaddr,
  so_rcvtimeo, so_sndbuf, so_rcvbuf, tcp_nodelay,
}
use linux_system_programming.Cpp.Method.{
  Method, error_code, pure, throw, ◌>>=◌, ◌>>◌, if◌then◌else◌, sys, get, modify, outer,
}

pub record Socket : Type 0 where
  pub fd : ℤ

-- `Socket()`
abbrev pub no_socket : Socket
no_socket = record { fd = minus_one }

-- `close_internal` as the destructor runs it
abbrev pub destroy : Socket → Prog (Unit {0})
destroy x = Posix.if◌then◌else◌ (not (fails x.fd)) (call (Posix.close x.fd) (λ _. ret tt)) (ret tt)

abbrev pub close_internal : Method Socket (Unit {0})
close_internal = do
  x ← get
  if not (fails x.fd) then (do sys (Posix.close x.fd); modify (λ _. no_socket)) else pure tt

-- `Socket(Socket&& other)`: the new object, and what is left of the other
abbrev pub move : Socket → Socket × Socket
move other = (record { fd = other.fd }, no_socket)

-- `operator=(Socket&& other)` for another object: `*this` and `other` are the state.
abbrev pub move_assign : Method (Socket × Socket) (Unit {0})
move_assign = do outer close_internal; modify (λ p. move p.1)

unfoldable pub create : SocketType → Method Socket (Unit {0})
create type = do
  close_internal
  r ← sys (Posix.socket type)
  modify (λ _. record { fd = r.value })
  if fails r.value then throw (error_code "socket" r.errno) else pure tt

-- A call on the descriptor whose failure is thrown.
abbrev checked : String → Request → Method Socket Reply
checked context request = do
  x ← get
  r ← sys (on x.fd request)
  if fails r.value then throw (error_code context r.errno) else pure r

unfoldable pub bind : SockAddr → Method Socket (Unit {0})
bind addr = do checked "bind" (Posix.bind addr); pure tt

unfoldable pub listen : ℕ → Method Socket (Unit {0})
listen backlog = do checked "listen" (Posix.listen backlog); pure tt

-- the new socket, and the address that the call wrote
unfoldable pub accept : Method Socket (Socket × SockAddr)
accept = do
  x ← get
  r ← sys (Posix.accept x.fd)
  if fails r.value
      then throw (error_code "accept" r.errno)
      else pure (record { fd = r.value }, r.from)

unfoldable pub connect : SockAddr → Method Socket (Unit {0})
connect addr = do checked "connect" (Posix.connect addr); pure tt

unfoldable pub send : List ℕ → Method Socket ℤ
send bytes = do r ← checked "send" (Posix.send bytes); pure r.value

-- the reads give the whole reply: the count, and what was written to the buffer and the address
unfoldable pub recv : ℕ → Method Socket Reply
recv size = checked "recv" (Posix.recv size)

unfoldable pub sendto : List ℕ → SockAddr → Method Socket ℤ
sendto bytes addr = do r ← checked "sendto" (Posix.sendto bytes addr); pure r.value

unfoldable pub recvfrom : ℕ → Method Socket Reply
recvfrom size = checked "recvfrom" (Posix.recvfrom size)

unfoldable pub shutdown : Method Socket (Unit {0})
shutdown = do
  x ← get
  if not (fails x.fd) then (do sys (on x.fd Posix.shutdown); pure tt) else pure tt

unfoldable pub set_option : SockOpt → ℕ → Method Socket (Unit {0})
set_option optname optval = do checked "setsockopt" (Posix.setsockopt optname optval); pure tt

-- `enable ? 1 : 0`
abbrev flag : Bool → ℕ
flag true = 1
flag false = 0

unfoldable pub set_reuse_addr : Bool → Method Socket (Unit {0})
unfolding set_option
set_reuse_addr enable = set_option so_reuseaddr (flag enable)

unfoldable pub set_tcp_nodelay : Bool → Method Socket (Unit {0})
unfolding set_option
set_tcp_nodelay enable = set_option tcp_nodelay (flag enable)

unfoldable pub set_recv_timeout : ℕ → Method Socket (Unit {0})
unfolding set_option
set_recv_timeout timeout_sec = set_option so_rcvtimeo timeout_sec

unfoldable pub set_send_buffer_size : ℕ → Method Socket (Unit {0})
unfolding set_option
set_send_buffer_size size = set_option so_sndbuf size

unfoldable pub set_recv_buffer_size : ℕ → Method Socket (Unit {0})
unfolding set_option
set_recv_buffer_size size = set_option so_rcvbuf size

-- `flags | O_NONBLOCK` or `flags & ~O_NONBLOCK`
abbrev with_nonblock : Libc → Bool → ℕ → ℕ
with_nonblock libc true flags = bit_or flags libc.o_nonblock
with_nonblock libc false flags = flags - bit_and flags libc.o_nonblock

unfoldable pub set_nonblocking : Libc → Bool → Method Socket (Unit {0})
set_nonblocking libc enable = do
  r ← checked "fcntl F_GETFL" Posix.fcntl_getfl
  checked "fcntl F_SETFL" (Posix.fcntl_setfl (with_nonblock libc enable (pos_part r.value)))
  pure tt
