-- ===== src/Socket/SelectServer/Reference.antt =====
-- The select server over a plain list of its clients: no array, no indices, no places that are free.
pub mod Refinement
pub mod Fuel
pub mod Echo
use linux_system_programming.Base.{
  ℕ, zero, suc, ℤ, pos, pos_part, fails, positive, is_zero, not, ◌&&◌, ltb, List, [], ◌∷◌, ◌++◌,
  take, length,
}
use linux_system_programming.Posix.{
  Libc, SockAddr, sock_stream, so_reuseaddr, setsockopt, bind, listen, recv, send, select_read,
  socket, accept, on, close, ask, Prog, ret, spent, fault, if◌then◌else◌, ◌>>=◌, ◌>>◌, sys, int,
  printf, perror, num, text, fill, require, fits_set,
}
use linux_system_programming.Socket.Nonblocking.{set_nonblocking}
use linux_system_programming.Socket.SelectServer.{is_set, mark, all_fit}

-- Each client in turn, those already seen in `kept`: it is read from once if it is ready, and stays
-- unless that read brought nothing.
unfoldable pub serve_clients : ℕ → List ℤ → List ℤ → List ℤ → List ℕ → Prog (List ℤ × List ℕ)
serve_clients fd_setsize ready kept [] buffer = ret (kept, buffer)
serve_clients fd_setsize ready kept (client ∷ clients) buffer = do
  require (fits_set fd_setsize client)
  if not (is_set client ready)
      then serve_clients fd_setsize ready (kept ++ client ∷ []) clients buffer
      else do
        r ← sys (on client (recv 4096))
        let n = r.value
        let buffer' = fill buffer r.bytes
        if not (positive n)
            then (do
              printf "Client disconnected\n" []
              int (close client)
              serve_clients fd_setsize ready kept clients buffer')
            else (do
              printf "Received %d bytes from client %d\n" (num n ∷ num (pos (length kept)) ∷ [])
              int (on client (send (take (pos_part n) buffer')))
              serve_clients fd_setsize ready (kept ++ client ∷ []) clients buffer')

unfoldable pub close_all : List ℤ → Prog (Unit {0})
close_all [] = ret tt
close_all (client ∷ clients) = do int (close client); close_all clients

module _ (libc : Libc) where
  open libc use {htons, ntohs, htonl, inet_ntop, inaddr_any, fd_setsize}

  unfoldable pub admit : ℤ → List ℤ → List ℤ → Prog (List ℤ)
  admit listen_fd ready clients =
      if is_set listen_fd ready
      then (do
        client ← sys (accept listen_fd)
        if not (fails client.value) && ltb (length clients) fd_setsize
            then (do
              printf "New client: %s:%d\n"
                  (text (inet_ntop client.from.host) ∷ num (ntohs client.from.port) ∷ [])
              ret (clients ++ client.value ∷ []))
            else ret clients)
      else ret clients

  unfoldable pub watch_clients : ℕ → ℤ → List ℤ → List ℕ → Prog (List ℤ)
  watch_clients zero listen_fd clients buffer = spent
  watch_clients (suc rounds) listen_fd clients buffer = do
    let (read_set, max_fd) = mark clients (listen_fd ∷ []) listen_fd
    require (all_fit fd_setsize read_set)
    activity ← sys (ask (select_read (suc (pos_part max_fd)) read_set 5))
    if fails activity.value
        then (do perror "select"; ret clients)
        else if is_zero activity.value
        then (do printf "Select timeout\n" []; watch_clients rounds listen_fd clients buffer)
        else do
          clients' ← admit listen_fd activity.ready clients
          (clients'', buffer') ← serve_clients fd_setsize activity.ready [] clients' buffer
          watch_clients rounds listen_fd clients'' buffer'

  unfoldable pub reference_server : ℕ → List ℕ → Prog (Unit {0})
  reference_server rounds buffer = do
    listen_fd ← int (socket sock_stream)
    if fails listen_fd then perror "socket" else do
      int (on listen_fd (setsockopt so_reuseaddr 1))
      set_nonblocking libc listen_fd
      let server_addr : SockAddr = record { port = htons (pos 8080); host = htonl inaddr_any }
      bound ← int (on listen_fd (bind server_addr))
      let refused : Prog (Unit {0}) = do perror "bind/listen"; int (close listen_fd); ret tt
      if fails bound then refused else do
        listening ← int (on listen_fd (listen 5))
        if fails listening then refused else do
          printf "Select-based server listening on port 8080...\n" []
          printf "Handles up to %d clients\n" (num (pos fd_setsize) ∷ [])
          clients ← watch_clients rounds listen_fd [] buffer
          int (close listen_fd)
          close_all clients
