-- ===== src/Socket/TcpClient.antt =====
-- socket_examples_c.c, section 2: the TCP client.
pub mod Resources
pub mod Order
mod Tests
use linux_system_programming.Base.{
  ℕ, zero, suc, ℤ, pos, pos_part, minus_one, ◌==ℤ◌, ◌-ℤ◌, ltb_ℤ, fails, positive, is_zero, nonzero,
  not, List, [], ◌∷◌, take, ◌+◌, ◌%◌, ◌^◌, ◌*◌, Bool, bit_or,
}
use linux_system_programming.Posix.{
  Libc, SockAddr, sock_stream, sock_dgram, so_reuseaddr, so_rcvtimeo, so_rcvbuf, so_sndbuf,
  setsockopt, bind, listen, connect, recv, send, recvfrom, sendto, fcntl_getfl, fcntl_setfl,
  getsockopt_error, inet_pton, time, select_read, select_write, pthread_self, pthread_detach,
  socket, accept, on, close, malloc, free, pthread_create, ask, Reply, Prog, ret, spent, fault,
  if◌then◌else◌, ◌>>=◌, ◌>>◌, sys, int, printf, eprintf, perror, num, text, rate, fill, poke,
  c_string, zeros,
}

module _ (libc : Libc) where
  open libc use {atoi, htons}

  -- The result is the `int` of the C function; `buffer` is the uninitialised local.
  unfoldable pub simple_tcp_client : List ℕ → List ℕ → List ℕ → List ℕ → Prog ℤ
  simple_tcp_client host port_str message buffer = do
    let port = atoi port_str
    sockfd ← int (socket sock_stream)
    if fails sockfd then (do perror "socket"; ret minus_one) else do
      int (on sockfd (setsockopt so_rcvtimeo 5))
      converted ← sys (ask (inet_pton host))
      let server_addr : SockAddr = record { port = htons port; host = converted.from.host }
      if not (positive converted.value)
          then (do
            eprintf "Invalid address: %s\n" (text host ∷ [])
            int (close sockfd)
            ret minus_one)
          else do
            printf "Connecting to %s:%d...\n" (text host ∷ num port ∷ [])
            connected ← int (on sockfd (connect server_addr))
            if fails connected then (do perror "connect"; int (close sockfd); ret minus_one) else do
              printf "Connected!\n" []
              printf "Sending: %s\n" (text message ∷ [])
              sent ← int (on sockfd (send message))
              if fails sent then (do perror "send"; int (close sockfd); ret minus_one) else do
                r ← sys (on sockfd (recv 4095))
                let n = r.value
                let buffer' = fill buffer r.bytes
                if fails n then (do perror "recv"; int (close sockfd); ret minus_one) else do
                  if is_zero n then printf "Connection closed by server\n" [] else (do
                    terminated ← poke buffer' n 0
                    printf "Received: %s\n" (text (c_string terminated) ∷ []))
                  int (close sockfd)
                  ret (pos 0)
