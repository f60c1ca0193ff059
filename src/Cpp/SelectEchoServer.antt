-- ===== src/Cpp/SelectEchoServer.antt =====
-- The class `SelectEchoServer`: a vector of sockets, in which a client that left keeps its place.
pub mod Clients
pub mod Resources
pub mod Rounds
pub mod Lifetime
use linux_system_programming.Base.{
  ℕ, zero, suc, ℤ, pos, pos_part, fails, positive, is_zero, not, ltb, true, List, [], ◌∷◌, ◌++◌,
  map, take, length,
}
use linux_system_programming.Posix.{
  Libc, sock_stream, select_read, ask, lit, num, text, Prog, ret, and_then, fill, fits_set,
}
use linux_system_programming.Socket.SelectServer.{is_set, mark, all_fit}
use linux_system_programming.Cpp.Method.{
  Tried, ok, threw, error_code, what, Method, pure, throw, ◌>>=◌, ◌>>◌, if◌then◌else◌, sys, cout,
  cerr, get, modify, require, cut_short, scoped, try_catch,
}
use linux_system_programming.Cpp.Socket
use linux_system_programming.Cpp.Socket.{Socket, no_socket, destroy, close_internal}

-- The field `port` is read by `run` only, which has it as an argument.
pub record SelectEchoServer : Type 0 where
  pub listen_socket : Socket
  pub clients : List Socket

-- a call on the member `listen_socket`
abbrev pub on_listen : {A : Type 0} → Method Socket A → Method SelectEchoServer A
on_listen m s = and_then (m s.listen_socket) (λ r. ret (r.0, record s { listen_socket = r.1 }))

abbrev pub select_echo_server : SelectEchoServer
select_echo_server = record { listen_socket = no_socket; clients = [] }

unfoldable pub destroy_clients : List Socket → Prog (Unit {0})
destroy_clients [] = ret tt
destroy_clients (c ∷ cs) = and_then (destroy c) (λ _. destroy_clients cs)

-- the destructors of the members
unfoldable pub destroy_select_echo_server : SelectEchoServer → Prog (Unit {0})
destroy_select_echo_server s = and_then (destroy_clients s.clients) (λ _. destroy s.listen_socket)

abbrev pub put_back :
    Socket → Tried (Unit {0}) × List Socket → Prog (Tried (Unit {0}) × List Socket)
put_back c (r, cs) = ret (r, c ∷ cs)

module _ (libc : Libc) where
  open libc use {htons, htonl, inet_ntop, inaddr_any, fd_setsize}

  -- The loop's body for the client at `i`; `buffer` is the uninitialised local.
  unfoldable pub client_turn : List ℕ → List ℤ → ℕ → Method Socket (Unit {0})
  unfolding Socket.recv Socket.send
  client_turn buffer ready i = do
    c ← get
    if fails c.fd then pure tt else do
      require (fits_set fd_setsize c.fd)
      if not (is_set c.fd ready)
          then pure tt
          else try_catch
              (do
                r ← Socket.recv 4096
                if not (positive r.value)
                    then (do
                      cout (lit "Client " ∷ num (pos i) ∷ lit " disconnected" ∷ [])
                      close_internal)
                    else (do
                      cout
                          (lit "Client " ∷ num (pos i) ∷ lit ": " ∷ num r.value ∷ lit " bytes" ∷ [])
                      Socket.send (take (pos_part r.value) (fill buffer r.bytes))
                      pure tt))
              (λ e. do cerr (lit "Client error: " ∷ what libc e); close_internal)

  -- the loop over the clients; what is thrown leaves it
  unfoldable pub each_client : List ℕ → List ℤ → ℕ → Method (List Socket) (Unit {0})
  each_client buffer ready i [] = ret (ok tt, [])
  each_client buffer ready i (c ∷ cs) = and_then (client_turn buffer ready i c) λ r. elim r.0 [
    | ok _ ↦ and_then (each_client buffer ready (suc i) cs) (put_back r.1)
    | threw e ↦ ret (threw e, r.1 ∷ cs)
  ]

  unfoldable pub accept_client : Method SelectEchoServer (Unit {0})
  unfolding Socket.accept
  accept_client =
      try_catch
        (do
          (client, addr) ← on_listen Socket.accept
          scoped client destroy (do
            cout (lit "New client: " ∷ text (inet_ntop addr.host) ∷ [])
            s ← get
            if ltb (length s.0.clients) fd_setsize
                then modify (λ s. (record s.0 { clients = s.0.clients ++ s.1 ∷ [] }, no_socket))
                else pure tt))
        (λ e. cerr (lit "Accept error: " ∷ what libc e))

  abbrev on_clients : {A : Type 0} → Method (List Socket) A → Method SelectEchoServer A
  on_clients m s = and_then (m s.clients) (λ r. ret (r.0, record s { clients = r.1 }))

  unfoldable pub select_rounds : ℕ → List ℕ → Method SelectEchoServer (Unit {0})
  select_rounds zero buffer = cut_short
  select_rounds (suc rounds) buffer = do
    s ← get
    let listen_fd = s.listen_socket.fd
    let marked = mark (map (λ (c : Socket). c.fd) s.clients) (listen_fd ∷ []) listen_fd
    require (all_fit fd_setsize marked.0)
    activity ← sys (ask (select_read (suc (pos_part marked.1)) marked.0 5))
    if fails activity.value
        then throw (error_code "select" activity.errno)
        else if is_zero activity.value
        then select_rounds rounds buffer
        else do
          if is_set listen_fd activity.ready then accept_client else pure tt
          on_clients (each_client buffer activity.ready 0)
          select_rounds rounds buffer

  unfoldable pub select_echo_server_run : ℕ → List ℕ → ℤ → Method SelectEchoServer (Unit {0})
  unfolding Socket.create Socket.set_reuse_addr Socket.bind Socket.listen
  select_echo_server_run rounds buffer port = do
    cout (lit "Starting select-based echo server on port " ∷ num port ∷ [])
    on_listen (Socket.create sock_stream)
    on_listen (Socket.set_reuse_addr true)
    on_listen (Socket.bind (record { port = htons port; host = htonl inaddr_any }))
    on_listen (Socket.listen 5)
    cout (lit "Server listening. Max " ∷ num (pos fd_setsize) ∷ lit " clients" ∷ [])
    select_rounds rounds buffer
