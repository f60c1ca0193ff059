-- ===== src/Cpp/UdpClient.antt =====
-- The class `UDPClient`.
use linux_system_programming.Base.{ℕ, ℤ, pos_part, positive, not, List, [], ◌∷◌, take}
use linux_system_programming.Posix.{
  Libc, SockAddr, sock_dgram, lit, num, text, ask, inet_pton, fill,
}
use linux_system_programming.Cpp.Method.{
  Method, message, pure, throw, ◌>>=◌, ◌>>◌, if◌then◌else◌, sys, cout, get, modify, outer,
}
use linux_system_programming.Cpp.Socket
use linux_system_programming.Cpp.Socket.{Socket}

-- the fields `socket` and `server_addr`
abbrev pub UdpClient : Type 0
UdpClient = Socket × SockAddr

module _ (libc : Libc) where
  -- `server_addr` is cleared, and then written by `inet_pton` if that succeeds.
  unfoldable pub udp_client_connect : List ℕ → ℤ → Method UdpClient (Unit {0})
  unfolding Socket.create Socket.set_recv_timeout
  udp_client_connect host port = do
    outer (Socket.create sock_dgram)
    outer (Socket.set_recv_timeout 5)
    modify (λ s. (s.0, record { port = libc.htons port; host = 0 }))
    r ← sys (ask (inet_pton host))
    if not (positive r.value)
        then throw (message (lit "Invalid address: " ∷ text host ∷ []))
        else do
          modify (λ s. (s.0, record { port = libc.htons port; host = r.from.host }))
          cout (lit "UDP client ready for " ∷ text host ∷ lit ":" ∷ num port ∷ [])

unfoldable pub udp_client_send_message : List ℕ → Method UdpClient (Unit {0})
unfolding Socket.sendto
udp_client_send_message bytes = do s ← get; outer (Socket.sendto bytes s.1); pure tt

-- `buffer` is the uninitialised local
unfoldable pub udp_client_recv_message : List ℕ → Method UdpClient (List ℕ)
unfolding Socket.recvfrom
udp_client_recv_message buffer = do
  r ← outer (Socket.recvfrom 4096)
  pure (take (pos_part r.value) (fill buffer r.bytes))
