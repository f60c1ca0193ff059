-- ===== src/Socket/ThreadServer.antt =====
-- socket_examples_c.c, section 3: the server with a thread for each client.
pub mod Resources
pub mod Order
pub mod Fuel
pub mod Echo
mod Tests
use linux_system_programming.Base.{
  ℕ, zero, suc, ℤ, pos, pos_part, minus_one, ◌==ℤ◌, ◌-ℤ◌, ltb_ℤ, fails, positive, is_zero, nonzero,
  not, List, [], ◌∷◌, take, ◌+◌, ◌%◌, ◌^◌, ◌*◌, Bool, bit_or,
}
use linux_system_programming.Posix.{
  Libc, SockAddr, sock_stream, sock_dgram, so_reuseaddr, so_rcvtimeo, so_rcvbuf, so_sndbuf,
  setsockopt, bind, listen, connect, recv, send, recvfrom, sendto, fcntl_getfl, fcntl_setfl,
  getsockopt_error, inet_pton, time, select_read, select_write, pthread_self, pthread_detach,
  socket, accept, on, close, malloc, free, pthread_create, ask, Reply, Prog, ret, spent, fault,
  if◌then◌else◌, ◌>>=◌, ◌>>◌, sys, int, printf, eprintf, perror, num, text, rate, fill, poke,
  c_string, zeros,
}

-- `client_info_t`
pub record ClientInfo : Type 0 where
  pub client_fd : ℤ
  pub client_addr : SockAddr

-- `sizeof(client_info_t)`: an int and a `struct sockaddr_in` of 16 bytes
abbrev sizeof_client_info : ℕ
sizeof_client_info = 20

-- `handle_client`'s echo loop
unfoldable pub handle_loop : ℕ → ℤ → List ℕ → Prog (Unit {0})
handle_loop zero client_fd buffer = spent
handle_loop (suc rounds) client_fd buffer = do
  r ← sys (on client_fd (recv 4096))
  let n = r.value
  let buffer' = fill buffer r.bytes
  if positive n
      then (do
        self ← int (ask pthread_self)
        printf "[Thread %ld] Received %d bytes\n" (num self ∷ num n ∷ [])
        sent ← int (on client_fd (send (take (pos_part n) buffer')))
        if fails sent then perror "send" else handle_loop rounds client_fd buffer')
      else ret tt

module _ (libc : Libc) where
  open libc use {htons, ntohs, htonl, inet_ntop, inaddr_any}

  -- The thread: `arg` points to the block, and `info` is what the block holds.
  unfoldable pub handle_client : ℕ → ℤ → ClientInfo → List ℕ → Prog (Unit {0})
  handle_client rounds arg info buffer = do
    let client_fd = info.client_fd
    let client_port = ntohs info.client_addr.port
    self ← int (ask pthread_self)
    printf "[Thread %ld] Client connected: %s:%d\n"
        (num self ∷ text (inet_ntop info.client_addr.host) ∷ num client_port ∷ [])
    handle_loop rounds client_fd buffer
    self' ← int (ask pthread_self)
    printf "[Thread %ld] Client disconnected\n" (num self' ∷ [])
    int (close client_fd)
    int (free arg)
    ret tt

  unfoldable pub serve_loop : ℕ → ℤ → Prog (Unit {0})
  serve_loop zero listen_fd = spent
  serve_loop (suc rounds) listen_fd = do
    info ← int (malloc sizeof_client_info)
    if is_zero info
        then (do eprintf "Memory allocation failed\n" []; serve_loop rounds listen_fd)
        else do
          client ← sys (accept listen_fd)
          if fails client.value
              then (do perror "accept"; int (free info); serve_loop rounds listen_fd)
              else do
                created ← sys (pthread_create info client.value client.from)
                if nonzero created.value
                    then (do
                      perror "pthread_create"
                      int (close client.value)
                      int (free info)
                      serve_loop rounds listen_fd)
                    else (do int (ask (pthread_detach created.thread)); serve_loop rounds listen_fd)

  unfoldable pub multithreaded_echo_server : ℕ → Prog (Unit {0})
  multithreaded_echo_server rounds = do
    listen_fd ← int (socket sock_stream)
    if fails listen_fd then perror "socket" else do
      int (on listen_fd (setsockopt so_reuseaddr 1))
      let server_addr : SockAddr = record { port = htons (pos 8080); host = htonl inaddr_any }
      bound ← int (on listen_fd (bind server_addr))
      let refused : Prog (Unit {0}) = do perror "bind/listen"; int (close listen_fd); ret tt
      if fails bound then refused else do
        listening ← int (on listen_fd (listen 5))
        if fails listening then refused else do
          printf "Multithreaded server listening on port 8080...\n" []
          serve_loop rounds listen_fd
          int (close listen_fd)
          ret tt
