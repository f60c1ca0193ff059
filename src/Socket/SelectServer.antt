-- ===== src/Socket/SelectServer.antt =====
-- socket_examples_c.c, section 6: the server that watches all its clients with `select`.
pub mod Table
pub mod Reference
mod Tests
use linux_system_programming.Base.{
  ℕ, zero, suc, ℤ, pos, pos_part, minus_one, ◌==ℤ◌, ltb_ℤ, fails, positive, is_zero, not, ◌&&◌,
  ◌||◌, Bool, true, false, ltb, leb, List, [], ◌∷◌, ◌++◌, take, drop, set, get_or, replicate,
  length, ◌+◌, ◌-◌,
}
use linux_system_programming.Posix.{
  Libc, SockAddr, sock_stream, so_reuseaddr, setsockopt, bind, listen, recv, send, select_read,
  socket, accept, on, close, ask, Prog, ret, spent, fault, if◌then◌else◌, ◌>>=◌, ◌>>◌, sys, int,
  printf, perror, num, text, fill, require, fits_set,
}
use linux_system_programming.Socket.Nonblocking.{set_nonblocking}

-- `clients` and `num_clients`
pub record Clients : Type 0 where
  pub slots : List ℤ
  pub num_clients : ℕ

-- FD_ISSET
abbrev pub is_set : ℤ → List ℤ → Bool
is_set x [] = false
is_set x (y ∷ ys) = x ==ℤ y || is_set x ys

-- The loop that adds the clients to the set, and what `max_fd` is after it.
abbrev pub mark : List ℤ → List ℤ → ℤ → List ℤ × ℤ
mark [] read_set max_fd = (read_set, max_fd)
mark (client ∷ clients) read_set max_fd =
    let added =
      mark clients (client ∷ read_set)
        (elim (ltb_ℤ max_fd client) [ true ↦ client | false ↦ max_fd ]) in
    let skipped = mark clients read_set max_fd in
    elim (fails client) [ true ↦ skipped | false ↦ added ]

-- FD_SET is defined only for descriptors below FD_SETSIZE.
abbrev pub all_fit : ℕ → List ℤ → Bool
all_fit fd_setsize [] = true
all_fit fd_setsize (x ∷ xs) = fits_set fd_setsize x && all_fit fd_setsize xs

-- `memmove(&clients[i], &clients[i+1], (num_clients - i - 1) * sizeof(int)); num_clients--`
abbrev pub remove_at : ℕ → Clients → Clients
remove_at i s = record {
  slots =
      take i s.slots
      ++ (take (s.num_clients - i - 1) (drop (suc i) s.slots) ++ drop (s.num_clients - 1) s.slots);
  num_clients = s.num_clients - 1;
}

-- `clients[num_clients++] = client_fd`
abbrev pub add_client : ℤ → Clients → Clients
add_client client_fd s = record {
  slots = set s.slots s.num_clients client_fd;
  num_clients = suc s.num_clients;
}

-- The loop over the connected clients; an access outside the array would be undefined behaviour.
unfoldable pub serve_ready : ℕ → ℕ → List ℤ → ℕ → Clients → List ℕ → Prog (Clients × List ℕ)
serve_ready fd_setsize zero ready i s buffer = spent
serve_ready fd_setsize (suc rounds) ready i s buffer =
    if not (ltb i s.num_clients) then ret (s, buffer) else do
      require (ltb i (length s.slots))
      let client = get_or s.slots i minus_one
      if fails client then serve_ready fd_setsize rounds ready (suc i) s buffer else do
        require (fits_set fd_setsize client)
        if not (is_set client ready)
            then serve_ready fd_setsize rounds ready (suc i) s buffer
            else do
              r ← sys (on client (recv 4096))
              let n = r.value
              let buffer' = fill buffer r.bytes
              if not (positive n)
                  then (do
                    printf "Client disconnected\n" []
                    int (close client)
                    require (leb s.num_clients (length s.slots))
                    serve_ready fd_setsize rounds ready i (remove_at i s) buffer')
                  else (do
                    printf "Received %d bytes from client %d\n" (num n ∷ num (pos i) ∷ [])
                    int (on client (send (take (pos_part n) buffer')))
                    serve_ready fd_setsize rounds ready (suc i) s buffer')

-- the loop that closes the connections at the end
unfoldable pub close_slots : List ℤ → Prog (Unit {0})
close_slots [] = ret tt
close_slots (client ∷ clients) =
    if fails client then close_slots clients else (do int (close client); close_slots clients)

module _ (libc : Libc) where
  open libc use {htons, ntohs, htonl, inet_ntop, inaddr_any, fd_setsize}

  unfoldable pub accept_ready : ℤ → List ℤ → Clients → Prog Clients
  accept_ready listen_fd ready s =
      if is_set listen_fd ready
      then (do
        client ← sys (accept listen_fd)
        if not (fails client.value) && ltb s.num_clients fd_setsize
            then (do
              printf "New client: %s:%d\n"
                  (text (inet_ntop client.from.host) ∷ num (ntohs client.from.port) ∷ [])
              require (ltb s.num_clients (length s.slots))
              ret (add_client client.value s))
            else ret s)
      else ret s

  unfoldable pub select_loop : ℕ → ℤ → Clients → List ℕ → Prog Clients
  select_loop zero listen_fd s buffer = spent
  select_loop (suc rounds) listen_fd s buffer = do
    let (read_set, max_fd) = mark (take s.num_clients s.slots) (listen_fd ∷ []) listen_fd
    require (all_fit fd_setsize read_set)
    activity ← sys (ask (select_read (suc (pos_part max_fd)) read_set 5))
    if fails activity.value
        then (do perror "select"; ret s)
        else if is_zero activity.value
        then (do printf "Select timeout\n" []; select_loop rounds listen_fd s buffer)
        else do
          s' ← accept_ready listen_fd activity.ready s
          (s'', buffer') ← serve_ready fd_setsize (suc s'.num_clients) activity.ready 0 s' buffer
          select_loop rounds listen_fd s'' buffer'

  unfoldable pub select_based_server : ℕ → List ℕ → Prog (Unit {0})
  select_based_server rounds buffer = do
    listen_fd ← int (socket sock_stream)
    if fails listen_fd then perror "socket" else do
      int (on listen_fd (setsockopt so_reuseaddr 1))
      set_nonblocking libc listen_fd
      let server_addr : SockAddr = record { port = htons (pos 8080); host = htonl inaddr_any }
      bound ← int (on listen_fd (bind server_addr))
      let refused : Prog (Unit {0}) = do perror "bind/listen"; int (close listen_fd); ret tt
      if fails bound then refused else do
        listening ← int (on listen_fd (listen 5))
        if fails listening then refused else do
          printf "Select-based server listening on port 8080...\n" []
          printf "Handles up to %d clients\n" (num (pos fd_setsize) ∷ [])
          s ←
              select_loop rounds listen_fd
                (record { slots = replicate fd_setsize minus_one; num_clients = 0 }) buffer
          int (close listen_fd)
          close_slots (take s.num_clients s.slots)
