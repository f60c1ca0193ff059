-- ===== src/Cpp/UdpServer/Echo.antt =====
-- `UDPServer` against the promise of an echo.
use linux_system_programming.Base.{ℕ, zero, suc, ℤ, ◌≡◌, List}
use linux_system_programming.Posix.{Libc, Reply, AllLawful, run, Obeys, Safe, Safe-Obeys}
use linux_system_programming.Spec.Echo.{echo, settled}
use linux_system_programming.Spec.Echo.Rules.{echo_rules, echo_bind}
use linux_system_programming.Cpp.Socket.{Socket, no_socket}
use linux_system_programming.Cpp.UdpServer.{echo_datagrams, udp_server_run}

module _ (libc : Libc) {limit : ℕ} where
  echo_datagrams-Echo :
      (rounds : ℕ) (s : Socket) (buffer : List ℕ)
      → Safe limit echo (λ _ d. d ≡ settled) (echo_datagrams libc rounds (s, buffer)) settled
  unfolding echo_datagrams
  echo_datagrams-Echo zero s buffer = search echo_rules
  echo_datagrams-Echo (suc rounds) s buffer =
      search (echo_rules, echo_datagrams-Echo rounds) depth 30 fits 20000

  udp_server_run-Echo :
      (rounds : ℕ) (buffer : List ℕ) (port : ℤ)
      → Safe limit echo
          (λ _ d. d ≡ settled)
          (udp_server_run libc rounds buffer port no_socket)
          settled
  unfolding udp_server_run
  udp_server_run-Echo rounds buffer port =
      search (echo_rules, echo_bind, echo_datagrams-Echo) depth 60 fits 20000

-- Against any lawful history of replies, `UDPServer::run` answers each received datagram with a
-- `sendto` of just these bytes to the address it came from before it receives again, and it sends
-- nothing else, also where an exception was caught before.
pub udp_server_run-echoes :
    (libc : Libc) (limit rounds : ℕ) (buffer : List ℕ) (port : ℤ) (rs : List Reply)
    → AllLawful limit (run (udp_server_run libc rounds buffer port no_socket) rs).events
    → Obeys echo settled
        (λ _ d. d ≡ settled)
        (run (udp_server_run libc rounds buffer port no_socket) rs)
udp_server_run-echoes libc limit rounds buffer port rs l =
    Safe-Obeys echo (udp_server_run-Echo libc rounds buffer port) rs l
