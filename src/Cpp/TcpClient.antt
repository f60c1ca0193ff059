-- ===== src/Cpp/TcpClient.antt =====
-- The class `TCPClient`. Its only field is its socket, so its methods are methods of that.
use linux_system_programming.Base.{
  ℕ, ℤ, pos_part, positive, is_zero, not, leb, List, [], ◌∷◌, take, if◌then◌else◌,
}
use linux_system_programming.Posix.{Libc, sock_stream, lit, num, text, ask, inet_pton, fill}
use linux_system_programming.Cpp.Method
use linux_system_programming.Cpp.Method.{Method, message, pure, throw, ◌>>=◌, ◌>>◌, sys, cout}
use linux_system_programming.Cpp.Socket
use linux_system_programming.Cpp.Socket.{Socket}

module _ (libc : Libc) where
  unfoldable pub tcp_client_connect : List ℕ → ℤ → Method Socket (Unit {0})
  unfolding Socket.create Socket.set_recv_timeout Socket.connect
  tcp_client_connect host port = do
    cout (lit "Connecting to " ∷ text host ∷ lit ":" ∷ num port ∷ [])
    Socket.create sock_stream
    Socket.set_recv_timeout 5
    r ← sys (ask (inet_pton host))
    Method.if◌then◌else◌ (not (positive r.value))
        (throw (message (lit "Invalid address: " ∷ text host ∷ [])))
        (do
          Socket.connect (record { port = libc.htons port; host = r.from.host })
          cout (lit "Connected!" ∷ []))

unfoldable pub tcp_client_send_message : List ℕ → Method Socket (Unit {0})
unfolding Socket.send
tcp_client_send_message bytes = do
  cout (lit "Sending: " ∷ text bytes ∷ [])
  Socket.send bytes
  pure tt

-- `buffer` is the uninitialised local
unfoldable pub tcp_client_recv_message : List ℕ → ℕ → Method Socket (List ℕ)
unfolding Socket.recv
tcp_client_recv_message buffer max_size = do
  r ← Socket.recv (if leb max_size 4096 then max_size else 4096)
  Method.if◌then◌else◌ (is_zero r.value) (throw (message (lit "Connection closed by server" ∷ [])))
      (pure (take (pos_part r.value) (fill buffer r.bytes)))

unfoldable pub tcp_client_disconnect : Method Socket (Unit {0})
unfolding Socket.shutdown
tcp_client_disconnect = Socket.shutdown
