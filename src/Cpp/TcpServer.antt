-- ===== src/Cpp/TcpServer.antt =====
-- The class `TCPServer`: a thread for each client, and a destructor that waits for them all.
pub mod Resources
pub mod Echo
pub mod Fuel
mod Tests
use linux_system_programming.Base.{
  ℕ, zero, suc, ℤ, pos, pos_part, fails, positive, is_zero, Bool, true, false, List, [], ◌∷◌, ◌++◌,
  take,
}
use linux_system_programming.Posix
use linux_system_programming.Posix.{
  Libc, SockAddr, sock_stream, lit, num, text, Prog, ret, call, ask, start_thread, join, and_then,
  fill,
}
use linux_system_programming.Cpp.Method.{
  Exception, what, system_error, Method, pure, throw, ◌>>=◌, ◌>>◌, if◌then◌else◌, sys, cout, cerr,
  get, modify, cut_short, plain, try_catch, try_catch_all, scoped, outer, local,
}
use linux_system_programming.Cpp.Socket
use linux_system_programming.Cpp.Socket.{Socket, no_socket, destroy, move}

-- The mutex is locked by the server's own thread only, and is left out.
pub record TcpServer : Type 0 where
  pub listen_socket : Socket
  pub port : ℤ
  pub threads : List ℕ
  pub running : Bool

-- a call on the member `listen_socket`
abbrev pub on_listen : {A : Type 0} → Method Socket A → Method TcpServer A
on_listen m s = and_then (m s.listen_socket) (λ r. ret (r.0, record s { listen_socket = r.1 }))

-- `TCPServer(int p)`
abbrev pub tcp_server : ℤ → TcpServer
tcp_server p = record { listen_socket = no_socket; port = p; threads = []; running = false }

unfoldable pub join_all : List ℕ → Prog (Unit {0})
join_all [] = ret tt
join_all (t ∷ threads) = call (ask (join t)) (λ _. join_all threads)

unfoldable pub stop : Method TcpServer (Unit {0})
unfolding Socket.shutdown
stop = do
  modify (λ s. record s { running = false })
  on_listen Socket.shutdown
  s ← get
  plain (join_all s.threads)

-- `~TCPServer()`, and the destructors of the members
unfoldable pub destroy_tcp_server : TcpServer → Prog (Unit {0})
unfolding stop
destroy_tcp_server s = and_then (stop s) (λ r. destroy r.1.listen_socket)

-- The new thread owns the client: what `std::move` leaves behind is no socket. If there can be no new
-- thread, the destructor of the thread's copy closes the client.
abbrev spawn : SockAddr → Method (TcpServer × Socket) (Unit {0})
spawn addr = do
  s ← get
  let client = s.1
  modify (λ s. (s.0, no_socket))
  r ← sys (start_thread client.fd addr)
  if is_zero r.value
      then modify (λ s. (record s.0 { threads = s.0.threads ++ r.thread ∷ [] }, s.1))
      else (do plain (destroy client); throw system_error)

module _ (libc : Libc) where
  open libc use {htons, ntohs, htonl, inet_ntop, inaddr_any}

  unfoldable pub tcp_server_start : Method TcpServer (Unit {0})
  unfolding Socket.create Socket.set_reuse_addr Socket.bind Socket.listen
  tcp_server_start = do
    s ← get
    cout (lit "Starting TCP server on port " ∷ num s.port ∷ [])
    on_listen (Socket.create sock_stream)
    on_listen (Socket.set_reuse_addr true)
    on_listen (Socket.bind (record { port = htons s.port; host = htonl inaddr_any }))
    on_listen (Socket.listen 5)
    modify (λ s. record s { running = true })
    cout (lit "Server listening on port " ∷ num s.port ∷ [])

  -- one round of the loop of `run`
  unfoldable pub accept_one : Method TcpServer (Unit {0})
  unfolding Socket.accept
  accept_one =
      try_catch
        (do
          (client, addr) ← on_listen Socket.accept
          scoped client destroy (do
            cout (
                lit "New client: "
                ∷ text (inet_ntop addr.host)
                ∷ lit ":"
                ∷ num (ntohs addr.port)
                ∷ [])
            spawn addr))
        (λ e. cerr (lit "Accept error: " ∷ what libc e))

  unfoldable pub serve : ℕ → Method TcpServer (Unit {0})
  serve zero = cut_short
  serve (suc rounds) = do s ← get; if s.running then (do accept_one; serve rounds) else pure tt

  unfoldable pub tcp_server_run : ℕ → Method TcpServer (Unit {0})
  unfolding tcp_server_start
  tcp_server_run rounds = do tcp_server_start; serve rounds

  -- the loop of `handle_client_impl`, with its buffer
  unfoldable pub echo_client : ℕ → List ℕ → SockAddr → Method Socket (Unit {0})
  unfolding Socket.recv Socket.send
  echo_client zero buffer addr = cut_short
  echo_client (suc rounds) buffer addr = do
    r ← Socket.recv 4096
    let buffer' = fill buffer r.bytes
    if positive r.value
        then (do
          cout
              (lit "Received " ∷ num r.value ∷ lit " bytes from " ∷ text (inet_ntop addr.host) ∷ [])
          Socket.send (take (pos_part r.value) buffer')
          echo_client rounds buffer' addr)
        else pure tt

  unfoldable pub handle_client_impl : ℕ → List ℕ → SockAddr → Method Socket (Unit {0})
  handle_client_impl rounds buffer addr = do
    try_catch (echo_client rounds buffer addr) (λ e. cerr (lit "Client error: " ∷ what libc e))
    cout (lit "Client disconnected: " ∷ text (inet_ntop addr.host) ∷ [])

  -- What a thread runs: `impl` is the override of `handle_client_impl` in the object's class. The
  -- parameter `client` is destroyed at the end.
  unfoldable pub handle_client :
      (SockAddr → Method Socket (Unit {0})) → Socket → SockAddr → Prog (Unit {0})
  handle_client impl client addr =
      and_then
        (try_catch_all (impl addr) (λ e. cerr (lit "Unhandled exception: " ∷ what libc e)) client)
        (λ r. destroy r.1)
