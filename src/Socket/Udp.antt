-- ===== src/Socket/Udp.antt =====
-- socket_examples_c.c, section 4: the UDP server and client.
pub mod Resources
pub mod Order
pub mod Fuel
pub mod Echo
mod Tests
use linux_system_programming.Base.{
  ℕ, zero, suc, ℤ, pos, pos_part, minus_one, ◌==ℤ◌, ◌-ℤ◌, ltb_ℤ, fails, positive, is_zero, nonzero,
  not, List, [], ◌∷◌, take, ◌+◌, ◌%◌, ◌^◌, ◌*◌, Bool, bit_or,
}
use linux_system_programming.Posix.{
  Libc, SockAddr, sock_stream, sock_dgram, so_reuseaddr, so_rcvtimeo, so_rcvbuf, so_sndbuf,
  setsockopt, bind, listen, connect, recv, send, recvfrom, sendto, fcntl_getfl, fcntl_setfl,
  getsockopt_error, inet_pton, time, select_read, select_write, pthread_self, pthread_detach,
  socket, accept, on, close, malloc, free, pthread_create, ask, Reply, Prog, ret, spent, fault,
  if◌then◌else◌, ◌>>=◌, ◌>>◌, sys, int, printf, eprintf, perror, num, text, rate, fill, poke,
  c_string, zeros,
}

module _ (libc : Libc) where
  open libc use {atoi, htons, ntohs, htonl, inet_ntop, inaddr_any}

  unfoldable pub datagram_loop : ℕ → ℤ → List ℕ → Prog (Unit {0})
  datagram_loop zero sockfd buffer = spent
  datagram_loop (suc rounds) sockfd buffer = do
    r ← sys (on sockfd (recvfrom 4096))
    let n = r.value
    let buffer' = fill buffer r.bytes
    if fails n then (do perror "recvfrom"; datagram_loop rounds sockfd buffer') else do
      printf "Received from %s:%d: %d bytes\n"
          (text (inet_ntop r.from.host) ∷ num (ntohs r.from.port) ∷ num n ∷ [])
      sent ← int (on sockfd (sendto (take (pos_part n) buffer') r.from))
      if fails sent then perror "sendto" else ret tt
      datagram_loop rounds sockfd buffer'

  unfoldable pub udp_echo_server : ℕ → List ℕ → Prog (Unit {0})
  udp_echo_server rounds buffer = do
    sockfd ← int (socket sock_dgram)
    if fails sockfd then perror "socket" else do
      int (on sockfd (setsockopt so_reuseaddr 1))
      let server_addr : SockAddr = record { port = htons (pos 8081); host = htonl inaddr_any }
      bound ← int (on sockfd (bind server_addr))
      if fails bound then (do perror "bind"; int (close sockfd); ret tt) else do
        printf "UDP Echo Server listening on port 8081...\n" []
        datagram_loop rounds sockfd buffer
        int (close sockfd)
        ret tt

  unfoldable pub udp_client : List ℕ → List ℕ → List ℕ → List ℕ → Prog ℤ
  udp_client host port_str message buffer = do
    let port = atoi port_str
    sockfd ← int (socket sock_dgram)
    if fails sockfd then (do perror "socket"; ret minus_one) else do
      int (on sockfd (setsockopt so_rcvtimeo 5))
      converted ← sys (ask (inet_pton host))
      let server_addr : SockAddr = record { port = htons port; host = converted.from.host }
      if not (positive converted.value)
          then (do
            eprintf "Invalid address: %s\n" (text host ∷ [])
            int (close sockfd)
            ret minus_one)
          else do
            printf "Sending UDP message to %s:%d\n" (text host ∷ num port ∷ [])
            sent ← int (on sockfd (sendto message server_addr))
            if fails sent then (do perror "sendto"; int (close sockfd); ret minus_one) else do
              r ← sys (on sockfd (recvfrom 4095))
              let n = r.value
              let buffer' = fill buffer r.bytes
              if fails n then (do perror "recvfrom"; int (close sockfd); ret minus_one) else do
                terminated ← poke buffer' n 0
                printf "Received: %s\n" (text (c_string terminated) ∷ [])
                int (close sockfd)
                ret (pos 0)
