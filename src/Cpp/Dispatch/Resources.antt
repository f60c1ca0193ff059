-- ===== src/Cpp/Dispatch/Resources.antt =====
-- What the examples of the C++ program hold, until their scopes end.
use linux_system_programming.Base.{ℕ, ℤ, ◌≡◌, refl, List, []}
use linux_system_programming.Posix.{Reply, run, AllLawful, Obeys, Libc}
use linux_system_programming.Spec.Resources.{resources, holding}
use linux_system_programming.Spec.Resources.Rules.{Tidy-Obeys, Tidy, res_print}
use linux_system_programming.Spec.Resources.Owners.{owned, owner_rules, res_else, res_socket_tested}
use linux_system_programming.Cpp.Scopes.{scoped-Keeps, destroy-Tidy}
use linux_system_programming.Cpp.TcpServer.{tcp_server, tcp_server_run}
use linux_system_programming.Cpp.TcpServer.Resources.{
  tcp_server_run-Tidy, destroy_tcp_server-Tidy, listening,
}
use linux_system_programming.Cpp.TcpServer.{TcpServer, destroy_tcp_server}
use linux_system_programming.Cpp.Method.{Method, scoped, local}
use linux_system_programming.Cpp.Socket.{no_socket, destroy}
use linux_system_programming.Cpp.UdpServer.{udp_server_run}
use linux_system_programming.Cpp.UdpServer.Resources.{udp_server_run-Tidy}
use linux_system_programming.Cpp.Bandwidth.{bandwidth_client}
use linux_system_programming.Cpp.Bandwidth.Resources.{bandwidth_client-Tidy}
use linux_system_programming.Cpp.Dispatch.{
  udp_server_example, bandwidth_client_example, bandwidth_server_example, tcp_client_example,
  udp_client_example, tcp_server_example,
}

module _ (libc : Libc) (rounds : ℕ) (buffer : List ℕ) {limit : ℕ} where
  pub tcp_client_example-Tidy :
      (host : List ℕ) (port : ℤ) (bytes : List ℕ)
      → Tidy 1 limit
          (λ _ b. b ≡ holding [])
          (tcp_client_example libc rounds buffer host port bytes tt)
          []
  unfolding tcp_client_example
  tcp_client_example-Tidy host port bytes = res_print (
      res_else refl (
        res_socket_tested refl (λ r e. search owner_rules depth 30)
          (λ r e. search owner_rules depth 60 fits 20000)))

  pub udp_client_example-Tidy :
      (host : List ℕ) (port : ℤ) (bytes : List ℕ)
      → Tidy 1 limit
          (λ _ b. b ≡ holding [])
          (udp_client_example libc rounds buffer host port bytes tt)
          []
  unfolding udp_client_example
  udp_client_example-Tidy host port bytes = search owner_rules depth 60 fits 20000

  pub tcp_server_example-Tidy :
      (port : ℤ)
      → Tidy 2 limit (λ _ b. b ≡ holding []) (tcp_server_example libc rounds buffer port tt) []
  unfolding tcp_server_example
  tcp_server_example-Tidy port =
      scoped-Keeps (λ _. []) listening (tcp_server port) _ (tcp_server_run libc rounds) tt refl
        (tcp_server_run-Tidy libc rounds port) (λ r. destroy_tcp_server-Tidy r.1)

  pub udp_server_example-Tidy :
      (port : ℤ)
      → Tidy 1 limit (λ _ b. b ≡ holding []) (udp_server_example libc rounds buffer port tt) []
  unfolding udp_server_example
  udp_server_example-Tidy port =
      scoped-Keeps (λ _. []) (λ r. owned r.1.fd) no_socket destroy
        (udp_server_run libc rounds buffer port) tt refl
        (udp_server_run-Tidy libc rounds buffer port) (λ r. destroy-Tidy r.1)

  pub bandwidth_client_example-Tidy :
      (host : List ℕ) (port duration : ℤ)
      → Tidy 1 limit
          (λ _ b. b ≡ holding [])
          (bandwidth_client_example libc rounds buffer host port duration tt)
          []
  unfolding bandwidth_client_example
  bandwidth_client_example-Tidy host port duration =
      scoped-Keeps (λ _. []) (λ r. owned r.1.fd) no_socket destroy
        (bandwidth_client libc rounds host port duration) tt refl
        (bandwidth_client-Tidy libc rounds host port duration) (λ r. destroy-Tidy r.1)

  pub bandwidth_server_example-Tidy :
      (port : ℤ)
      → Tidy 2 limit
          (λ _ b. b ≡ holding [])
          (bandwidth_server_example libc rounds buffer port tt)
          []
  unfolding bandwidth_server_example tcp_server_example
  bandwidth_server_example-Tidy port =
      let m : Method TcpServer (Unit {0}) =
        scoped (tcp_server port) destroy_tcp_server (local (tcp_server_run libc rounds)) in
      res_print (
        scoped-Keeps (λ _. []) listening (tcp_server port) destroy_tcp_server m tt refl
          (scoped-Keeps (λ (s : TcpServer). owned s.listen_socket.fd) listening (tcp_server port)
            destroy_tcp_server (tcp_server_run libc rounds) (tcp_server port) refl
            (tcp_server_run-Tidy libc rounds port) (λ r. destroy_tcp_server-Tidy r.1))
          (λ r. destroy_tcp_server-Tidy r.1))

-- For any port, any number of rounds and any lawful history of replies, the scope of a C++ `TCPServer`
-- that runs makes calls only on descriptors that it holds, at most two at a time, hands each accepted
-- one to one thread or closes it, and where it ends, by a return or by an exception, it holds none.
pub tcp_server_example-releases :
    (libc : Libc) (limit rounds : ℕ) (buffer : List ℕ) (port : ℤ) (rs : List Reply)
    → AllLawful limit (run (tcp_server_example libc rounds buffer port tt) rs).events
    → Obeys
        (resources 2)
        (holding [])
        (λ _ b. b ≡ holding [])
        (run (tcp_server_example libc rounds buffer port tt) rs)
tcp_server_example-releases libc limit rounds buffer port rs l =
    Tidy-Obeys (tcp_server_example-Tidy libc rounds buffer port) rs l

-- With any lawful history of replies, `bandwidth_test_server_cpp` makes calls only on descriptors that
-- it holds, at most two at a time, and holds none where it ends, by a return or by an exception.
pub bandwidth_server_example-releases :
    (libc : Libc) (limit rounds : ℕ) (buffer : List ℕ) (port : ℤ) (rs : List Reply)
    → AllLawful limit (run (bandwidth_server_example libc rounds buffer port tt) rs).events
    → Obeys
        (resources 2)
        (holding [])
        (λ _ b. b ≡ holding [])
        (run (bandwidth_server_example libc rounds buffer port tt) rs)
bandwidth_server_example-releases libc limit rounds buffer port rs l =
    Tidy-Obeys (bandwidth_server_example-Tidy libc rounds buffer port) rs l

-- For any host, port and message and any lawful history of replies, the scope of the C++ `TCPClient`
-- opens at most one socket, makes calls only on it while it is open, and closes it exactly once,
-- whether the scope ends by a return or by an exception in any of its calls.
pub tcp_client_example-releases :
    (libc : Libc) (limit rounds : ℕ) (buffer : List ℕ) (host : List ℕ) (port : ℤ) (bytes : List ℕ)
    (rs : List Reply)
    → AllLawful limit (run (tcp_client_example libc rounds buffer host port bytes tt) rs).events
    → Obeys
        (resources 1)
        (holding [])
        (λ _ b. b ≡ holding [])
        (run (tcp_client_example libc rounds buffer host port bytes tt) rs)
tcp_client_example-releases libc limit rounds buffer host port bytes rs l =
    Tidy-Obeys (tcp_client_example-Tidy libc rounds buffer host port bytes) rs l

-- For any port and any lawful history of replies, the scope of the C++ `UDPServer` makes calls only on
-- its one socket while that is open, and where it ends, by a return or by an exception, the socket is
-- closed.
pub udp_server_example-releases :
    (libc : Libc) (limit rounds : ℕ) (buffer : List ℕ) (port : ℤ) (rs : List Reply)
    → AllLawful limit (run (udp_server_example libc rounds buffer port tt) rs).events
    → Obeys
        (resources 1)
        (holding [])
        (λ _ b. b ≡ holding [])
        (run (udp_server_example libc rounds buffer port tt) rs)
udp_server_example-releases libc limit rounds buffer port rs l =
    Tidy-Obeys (udp_server_example-Tidy libc rounds buffer port) rs l

-- For any host, port and message and any lawful history of replies, the scope of the C++ `UDPClient`
-- makes calls only on its one socket while that is open, and where it ends, by a return or by an
-- exception, the socket is closed.
pub udp_client_example-releases :
    (libc : Libc) (limit rounds : ℕ) (buffer : List ℕ) (host : List ℕ) (port : ℤ) (bytes : List ℕ)
    (rs : List Reply)
    → AllLawful limit (run (udp_client_example libc rounds buffer host port bytes tt) rs).events
    → Obeys
        (resources 1)
        (holding [])
        (λ _ b. b ≡ holding [])
        (run (udp_client_example libc rounds buffer host port bytes tt) rs)
udp_client_example-releases libc limit rounds buffer host port bytes rs l =
    Tidy-Obeys (udp_client_example-Tidy libc rounds buffer host port bytes) rs l

-- With any lawful history of replies, `bandwidth_test_client_cpp` makes calls only on its one socket
-- while that is open, also after a send that threw, and has closed it where it ends, by a return or by
-- an exception.
pub bandwidth_client_example-releases :
    (libc : Libc) (limit rounds : ℕ) (buffer : List ℕ) (host : List ℕ) (port : ℤ) (duration : ℤ)
    (rs : List Reply)
    → AllLawful limit
        (run (bandwidth_client_example libc rounds buffer host port duration tt) rs).events
    → Obeys
        (resources 1)
        (holding [])
        (λ _ b. b ≡ holding [])
        (run (bandwidth_client_example libc rounds buffer host port duration tt) rs)
bandwidth_client_example-releases libc limit rounds buffer host port duration rs l =
    Tidy-Obeys (bandwidth_client_example-Tidy libc rounds buffer host port duration) rs l
