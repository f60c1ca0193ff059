-- ===== src/Cpp/TcpServer/Fuel.antt =====
-- The rounds of a thread of TCPServer.
use linux_system_programming.Base.{ℕ, zero, suc, List, [], ◌∷◌, length, ◌<◌, ◌≢◌}
use linux_system_programming.Posix.{
  Libc, lit, text, SockAddr, Reply, run, cut, Lasts, Lasts-bind, Lasts-run, lasts_rules, lasts_ret,
  lasts_if, lasts_print, lasts_call,
}
use linux_system_programming.Cpp.Method.{cout, cerr, what}
use linux_system_programming.Cpp.Rounds.{Lasts-resume, Lasts-handled, Lasts-all_handled}
use linux_system_programming.Cpp.Socket
use linux_system_programming.Cpp.Socket.{Socket, destroy}
use linux_system_programming.Cpp.TcpServer.{echo_client, handle_client_impl, handle_client}

module _ (libc : Libc) where
  echo_client-Lasts :
      (rounds : ℕ) (buffer : List ℕ) (addr : SockAddr) (s : Socket)
      → Lasts (echo_client libc rounds buffer addr s) rounds
  unfolding echo_client Socket.recv Socket.send
  echo_client-Lasts zero buffer addr s = search lasts_rules
  echo_client-Lasts (suc rounds) buffer addr s =
      search (lasts_rules, lasts_ret, lasts_if, lasts_print, lasts_call, echo_client-Lasts rounds)
        depth 40 fits 20000

  handle_client_impl-Lasts :
      (rounds : ℕ) (buffer : List ℕ) (addr : SockAddr) (s : Socket)
      → Lasts (handle_client_impl libc rounds buffer addr s) rounds
  unfolding handle_client_impl
  handle_client_impl-Lasts rounds buffer addr s =
      Lasts-bind _ _
        (Lasts-bind _ _ (echo_client-Lasts rounds buffer addr s) (
          Lasts-handled (λ e. cerr (lit "Client error: " ∷ what libc e))
            λ e s. lasts_print lasts_ret))
        (Lasts-resume
          (λ _. cout (lit "Client disconnected: " ∷ text (libc.inet_ntop addr.host) ∷ []))
          λ a s. lasts_print lasts_ret)

  handle_client-Lasts :
      (rounds : ℕ) (buffer : List ℕ) (client : Socket) (addr : SockAddr)
      → Lasts (handle_client libc (handle_client_impl libc rounds buffer) client addr) rounds
  unfolding handle_client
  handle_client-Lasts rounds buffer client addr =
      Lasts-bind _ _
        (Lasts-bind _ _ (handle_client_impl-Lasts rounds buffer addr client) (
          Lasts-all_handled (λ e. cerr (lit "Unhandled exception: " ∷ what libc e))
            λ e s. lasts_print lasts_ret))
        (λ r. lasts_if (lasts_call λ _. lasts_ret) lasts_ret)

-- With more rounds than there are replies, a run of a thread of TCPServer is never cut short.
pub handle_client-lasts :
    (libc : Libc) (rounds : ℕ) (buffer : List ℕ) (client : Socket) (addr : SockAddr)
    (rs : List Reply)
    → length rs < rounds
    → (run (handle_client libc (handle_client_impl libc rounds buffer) client addr) rs).outcome
      ≢ cut
handle_client-lasts libc rounds buffer client addr rs =
    Lasts-run (handle_client-Lasts libc rounds buffer client addr) rs
