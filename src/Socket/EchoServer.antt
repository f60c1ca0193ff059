-- ===== src/Socket/EchoServer.antt =====
-- socket_examples_c.c, section 1: the single-threaded echo server.
pub mod Resources
pub mod Order
pub mod Fuel
pub mod Echo
mod Tests
use linux_system_programming.Base.{
  ℕ, zero, suc, ℤ, pos, pos_part, minus_one, ◌==ℤ◌, fails, positive, List, [], ◌∷◌, take,
}
use linux_system_programming.Posix.{
  Libc, SockAddr, sock_stream, so_reuseaddr, setsockopt, bind, listen, recv, send, socket, accept,
  on, close, Prog, ret, spent, if◌then◌else◌, ◌>>=◌, ◌>>◌, sys, int, printf, perror, num, text,
  fill,
}

-- `while ((n = recv(client_fd, buffer, sizeof(buffer), 0)) > 0)`, with the last `n` and the buffer
unfoldable pub echo_loop : ℕ → ℤ → List ℕ → Prog (ℤ × List ℕ)
echo_loop zero client_fd buffer = spent
echo_loop (suc rounds) client_fd buffer = do
  r ← sys (on client_fd (recv 4096))
  let n = r.value
  let buffer' = fill buffer r.bytes
  if positive n
      then (do
        printf "Received %d bytes: %.*s\n" (num n ∷ num n ∷ text (take (pos_part n) buffer') ∷ [])
        sent ← int (on client_fd (send (take (pos_part n) buffer')))
        if fails sent
            then (do perror "send"; ret (n, buffer'))
            else echo_loop rounds client_fd buffer')
      else ret (n, buffer')

module _ (libc : Libc) where
  open libc use {htons, ntohs, htonl, inet_ntop, inaddr_any}

  unfoldable pub accept_loop : ℕ → ℤ → List ℕ → Prog (Unit {0})
  accept_loop zero listen_fd buffer = spent
  accept_loop (suc rounds) listen_fd buffer = do
    client ← sys (accept listen_fd)
    if fails client.value then (do perror "accept"; accept_loop rounds listen_fd buffer) else do
      printf "New connection from %s:%d\n"
          (text (inet_ntop client.from.host) ∷ num (ntohs client.from.port) ∷ [])
      (n, buffer') ← echo_loop rounds client.value buffer
      if n ==ℤ pos 0
          then printf "Connection closed by client\n" []
          else if n ==ℤ minus_one
          then perror "recv"
          else ret tt
      int (close client.value)
      accept_loop rounds listen_fd buffer'

  unfoldable pub simple_echo_server : ℕ → List ℕ → Prog (Unit {0})
  simple_echo_server rounds buffer = do
    listen_fd ← int (socket sock_stream)
    if fails listen_fd then perror "socket" else do
      enabled ← int (on listen_fd (setsockopt so_reuseaddr 1))
      if fails enabled
          then (do perror "setsockopt SO_REUSEADDR"; int (close listen_fd); ret tt)
          else do
            let server_addr : SockAddr = record { port = htons (pos 8080); host = htonl inaddr_any }
            bound ← int (on listen_fd (bind server_addr))
            if fails bound then (do perror "bind"; int (close listen_fd); ret tt) else do
              printf "Server listening on port 8080...\n" []
              listening ← int (on listen_fd (listen 5))
              if fails listening
                  then (do perror "listen"; int (close listen_fd); ret tt)
                  else do accept_loop rounds listen_fd buffer; int (close listen_fd); ret tt
