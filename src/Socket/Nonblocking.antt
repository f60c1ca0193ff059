-- ===== src/Socket/Nonblocking.antt =====
-- socket_examples_c.c, section 5: non-blocking sockets.
pub mod Resources
mod Tests
use linux_system_programming.Base.{
  ℕ, zero, suc, ℤ, pos, pos_part, minus_one, ◌==ℤ◌, ◌-ℤ◌, ltb_ℤ, fails, positive, is_zero, nonzero,
  not, List, [], ◌∷◌, take, ◌+◌, ◌%◌, ◌^◌, ◌*◌, Bool, bit_or,
}
use linux_system_programming.Posix.{
  Libc, SockAddr, sock_stream, sock_dgram, so_reuseaddr, so_rcvtimeo, so_rcvbuf, so_sndbuf,
  setsockopt, bind, listen, connect, recv, send, recvfrom, sendto, fcntl_getfl, fcntl_setfl,
  getsockopt_error, inet_pton, time, select_read, select_write, pthread_self, pthread_detach,
  socket, accept, on, close, malloc, free, pthread_create, ask, Reply, Prog, ret, spent, fault,
  if◌then◌else◌, ◌>>=◌, ◌>>◌, sys, int, printf, eprintf, perror, num, text, rate, fill, poke,
  c_string, zeros, require, fits_set, host_or_zero,
}

module _ (libc : Libc) where
  open libc use {htons, strerror, o_nonblock, einprogress, fd_setsize}

  unfoldable pub set_nonblocking : ℤ → Prog ℤ
  set_nonblocking sockfd = do
    flags ← int (on sockfd fcntl_getfl)
    if fails flags then (do perror "fcntl F_GETFL"; ret minus_one) else do
      done ← int (on sockfd (fcntl_setfl (bit_or (pos_part flags) o_nonblock)))
      if fails done then (do perror "fcntl F_SETFL"; ret minus_one) else ret (pos 0)

  -- What follows `connect`: wait for the socket to become writable, and read SO_ERROR.
  unfoldable pub await_connection : ℤ → ℤ → Prog ℤ
  await_connection sockfd timeout_sec = do
    require (fits_set fd_setsize sockfd)
    select_result ← int (ask (select_write (suc (pos_part sockfd)) (sockfd ∷ []) timeout_sec))
    if fails select_result
        then (do perror "select"; int (close sockfd); ret minus_one)
        else if is_zero select_result
        then (do eprintf "Connection timeout\n" []; int (close sockfd); ret minus_one)
        else do
          checked ← sys (on sockfd getsockopt_error)
          if fails checked.value
              then (do perror "getsockopt SO_ERROR"; int (close sockfd); ret minus_one)
              else if nonzero checked.errno
              then (do
                eprintf "Connection failed: %s\n" (text (strerror checked.errno) ∷ [])
                int (close sockfd)
                ret minus_one)
              else (do printf "Connected successfully using non-blocking socket\n" []; ret sockfd)

  unfoldable pub nonblocking_connect : List ℕ → ℤ → ℤ → Prog ℤ
  nonblocking_connect host port timeout_sec = do
    sockfd ← int (socket sock_stream)
    if fails sockfd then (do perror "socket"; ret minus_one) else do
      set ← set_nonblocking sockfd
      if fails set then (do int (close sockfd); ret minus_one) else do
        converted ← sys (ask (inet_pton host))
        let addr : SockAddr = record { port = htons port; host = host_or_zero converted }
        connected ← sys (on sockfd (connect addr))
        if fails connected.value
            then (if not (connected.errno ==ℤ einprogress)
                then (do perror "connect"; int (close sockfd); ret minus_one)
                else await_connection sockfd timeout_sec)
            else await_connection sockfd timeout_sec
