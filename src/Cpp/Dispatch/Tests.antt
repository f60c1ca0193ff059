-- ===== src/Cpp/Dispatch/Tests.antt =====
-- Runs of the C++ examples.
use linux_system_programming.Base.{pos, ◌≡◌, refl, List, [], ◌∷◌, arith}
use linux_system_programming.Posix.{Reply, run, returned, Obeys, zeros}
use linux_system_programming.Spec.Resources.{resources, holding}
use linux_system_programming.Socket.Sample.{sample, gives, failed}
use linux_system_programming.Cpp.Method.{threw, error_code}
use linux_system_programming.Cpp.TcpServer.{
  tcp_server_run, serve, accept_one, destroy_tcp_server, join_all,
}
use linux_system_programming.Cpp.Dispatch.{tcp_server_example}
use linux_system_programming.Cpp.Dispatch.Resources.{tcp_server_example-releases}

-- a client that a thread takes, one that no thread can be made for, and a wait for the third
abbrev two_clients : List Reply
two_clients =
    gives (pos 3)
    ∷ gives (pos 0)
    ∷ gives (pos 0)
    ∷ gives (pos 0)
    ∷ gives (pos 4)
    ∷ gives (pos 0)
    ∷ failed (pos 24)
    ∷ []

abbrev no_address : List Reply
no_address = gives (pos 3) ∷ gives (pos 0) ∷ failed (pos 98) ∷ gives (pos 0) ∷ gives (pos 0) ∷ []

-- an exception leaves the scope after the destructor ran
bind_threw :
    (run (tcp_server_example sample 3 (zeros 4096) (pos 80) tt) no_address).outcome
    ≡ returned (threw (error_code "bind" (pos 98)), tt)
unfolding run tcp_server_example tcp_server_run serve accept_one destroy_tcp_server join_all
bind_threw = refl

tcp_server_example-releases_example :
    Obeys
      (resources 2)
      (holding [])
      (λ _ b. b ≡ holding [])
      (run (tcp_server_example sample 3 (zeros 4096) (pos 80) tt) two_clients)
unfolding run tcp_server_example tcp_server_run serve accept_one destroy_tcp_server join_all
tcp_server_example-releases_example =
    tcp_server_example-releases sample 1024 3 (zeros 4096) (pos 80) two_clients (ground arith)
