-- ===== src/Socket/Bandwidth.antt =====
-- socket_examples_c.c, section 7: the bandwidth test.
pub mod Resources
pub mod Total
pub mod Fuel
mod Tests
use linux_system_programming.Base.{
  ℕ, zero, suc, ℤ, pos, negsuc, pos_part, ◌-◌, minus_one, ◌==ℤ◌, ◌-ℤ◌, ltb_ℤ, fails, positive,
  is_zero, nonzero, not, List, [], ◌∷◌, take, ◌+◌, ◌%◌, ◌^◌, ◌*◌, Bool, bit_or,
}
use linux_system_programming.Posix.{
  Libc, SockAddr, sock_stream, sock_dgram, so_reuseaddr, so_rcvtimeo, so_rcvbuf, so_sndbuf,
  setsockopt, bind, listen, connect, recv, send, recvfrom, sendto, fcntl_getfl, fcntl_setfl,
  getsockopt_error, inet_pton, time, select_read, select_write, pthread_self, pthread_detach,
  socket, accept, on, close, malloc, free, pthread_create, ask, Reply, Prog, ret, spent, fault,
  if◌then◌else◌, ◌>>=◌, ◌>>◌, sys, int, printf, eprintf, perror, num, text, rate, fill, poke,
  c_string, zeros, host_or_zero,
}

-- `bytes += n` on an `unsigned long long`, to which `n` is converted
abbrev pub count : ℕ → ℤ → ℕ
count bytes (pos n) = (bytes + n) % 2 ^ 64
count bytes (negsuc n) = (bytes + (2 ^ 64 - suc n)) % 2 ^ 64

-- The loop over `recv`, for ten seconds after `start_time`. The buffer is never read.
unfoldable pub receive_loop : ℕ → ℤ → ℤ → ℕ → Prog ℕ
receive_loop zero client_fd start_time bytes_received = spent
receive_loop (suc rounds) client_fd start_time bytes_received = do
  now ← int (ask time)
  if ltb_ℤ (now -ℤ start_time) (pos 10)
      then (do
        n ← int (on client_fd (recv 65536))
        if positive n
            then receive_loop rounds client_fd start_time (count bytes_received n)
            else ret bytes_received)
      else ret bytes_received

-- The loop over `send`, for `duration_sec` seconds.
unfoldable pub send_loop : ℕ → ℤ → List ℕ → ℤ → ℤ → ℕ → Prog ℕ
send_loop zero sockfd buffer duration_sec start_time bytes_sent = spent
send_loop (suc rounds) sockfd buffer duration_sec start_time bytes_sent = do
  now ← int (ask time)
  if ltb_ℤ (now -ℤ start_time) duration_sec
      then (do
        n ← int (on sockfd (send buffer))
        if fails n
            then (do perror "send"; ret bytes_sent)
            else send_loop rounds sockfd buffer duration_sec start_time (count bytes_sent n))
      else ret bytes_sent

module _ (libc : Libc) where
  open libc use {htons, htonl, inaddr_any}

  unfoldable pub bandwidth_test_server : ℕ → ℤ → Prog (Unit {0})
  bandwidth_test_server rounds port = do
    listen_fd ← int (socket sock_stream)
    if fails listen_fd then perror "socket" else do
      int (on listen_fd (setsockopt so_rcvbuf (1024 * 1024)))
      int (on listen_fd (setsockopt so_sndbuf (1024 * 1024)))
      int (on listen_fd (setsockopt so_reuseaddr 1))
      let server_addr : SockAddr = record { port = htons port; host = htonl inaddr_any }
      bound ← int (on listen_fd (bind server_addr))
      let refused : Prog (Unit {0}) = do perror "bind/listen"; int (close listen_fd); ret tt
      if fails bound then refused else do
        listening ← int (on listen_fd (listen 1))
        if fails listening then refused else do
          printf "Bandwidth test server on port %d\n" (num port ∷ [])
          printf "Waiting for client...\n" []
          client_fd ← int (accept listen_fd)
          if fails client_fd then (do perror "accept"; int (close listen_fd); ret tt) else do
            printf "Client connected. Receiving data...\n" []
            start_time ← int (ask time)
            bytes_received ← receive_loop rounds client_fd start_time 0
            end_time ← int (ask time)
            let elapsed = end_time -ℤ start_time
            printf "Throughput: %.2f MB/s (%llu bytes in %ld seconds)\n"
                (rate bytes_received elapsed ∷ num (pos bytes_received) ∷ num elapsed ∷ [])
            int (close client_fd)
            int (close listen_fd)
            ret tt

  unfoldable pub bandwidth_test_client : ℕ → List ℕ → ℤ → ℤ → Prog ℤ
  bandwidth_test_client rounds host port duration_sec = do
    let buffer = zeros 65536
    sockfd ← int (socket sock_stream)
    if fails sockfd then (do perror "socket"; ret minus_one) else do
      int (on sockfd (setsockopt so_rcvbuf (1024 * 1024)))
      int (on sockfd (setsockopt so_sndbuf (1024 * 1024)))
      converted ← sys (ask (inet_pton host))
      let addr : SockAddr = record { port = htons port; host = host_or_zero converted }
      printf "Connecting to %s:%d...\n" (text host ∷ num port ∷ [])
      connected ← int (on sockfd (connect addr))
      if fails connected then (do perror "connect"; int (close sockfd); ret minus_one) else do
        printf "Connected. Sending data for %d seconds...\n" (num duration_sec ∷ [])
        start_time ← int (ask time)
        bytes_sent ← send_loop rounds sockfd buffer duration_sec start_time 0
        end_time ← int (ask time)
        let elapsed = end_time -ℤ start_time
        printf "Sent: %.2f MB/s (%llu bytes in %ld seconds)\n"
            (rate bytes_sent elapsed ∷ num (pos bytes_sent) ∷ num elapsed ∷ [])
        int (close sockfd)
        ret (pos 0)
