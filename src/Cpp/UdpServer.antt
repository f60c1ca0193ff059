-- ===== src/Cpp/UdpServer.antt =====
-- The class `UDPServer`.
pub mod Fuel
pub mod Resources
pub mod Echo
mod Tests
use linux_system_programming.Base.{ℕ, zero, suc, ℤ, pos_part, true, List, [], ◌∷◌, take}
use linux_system_programming.Posix.{Libc, sock_dgram, lit, num, text, Prog, ret, and_then, fill}
use linux_system_programming.Cpp.Method.{
  what, Method, pure, ◌>>=◌, ◌>>◌, cout, cerr, get, cut_short, scoped, outer, local, modify,
  try_catch,
}
use linux_system_programming.Cpp.Socket
use linux_system_programming.Cpp.Socket.{Socket}

module _ (libc : Libc) where
  open libc use {htons, ntohs, htonl, inet_ntop, inaddr_any}

  -- The port does not change, so the object is its socket.
  unfoldable pub udp_server_start : ℤ → Method Socket (Unit {0})
  unfolding Socket.create Socket.set_reuse_addr Socket.bind
  udp_server_start port = do
    cout (lit "Starting UDP server on port " ∷ num port ∷ [])
    Socket.create sock_dgram
    Socket.set_reuse_addr true
    Socket.bind (record { port = htons port; host = htonl inaddr_any })
    cout (lit "UDP server listening on port " ∷ num port ∷ [])

  -- The body of `try`: the buffer is a local of `run`, and keeps what was written to it.
  unfoldable pub echo_datagram : Method (Socket × List ℕ) (Unit {0})
  unfolding Socket.recvfrom Socket.sendto
  echo_datagram = do
    r ← outer (Socket.recvfrom 4096)
    modify (λ s. (s.0, fill s.1 r.bytes))
    cout (
        lit "Received "
        ∷ num r.value
        ∷ lit " bytes from "
        ∷ text (inet_ntop r.from.host)
        ∷ lit ":"
        ∷ num (ntohs r.from.port)
        ∷ [])
    s ← get
    outer (Socket.sendto (take (pos_part r.value) s.1) r.from)
    pure tt

  unfoldable pub echo_datagrams : ℕ → Method (Socket × List ℕ) (Unit {0})
  unfolding echo_datagram
  echo_datagrams zero = cut_short
  echo_datagrams (suc rounds) = do
    try_catch echo_datagram (λ e. cerr (lit "UDP error: " ∷ what libc e))
    echo_datagrams rounds

  unfoldable pub udp_server_run : ℕ → List ℕ → ℤ → Method Socket (Unit {0})
  unfolding udp_server_start
  udp_server_run rounds buffer port = do
    udp_server_start port
    scoped buffer (λ _. ret tt) (echo_datagrams rounds)
