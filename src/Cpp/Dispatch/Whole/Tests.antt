-- ===== src/Cpp/Dispatch/Whole/Tests.antt =====
-- Runs of the select server's example and of the whole program.
use linux_system_programming.Base.{ℕ, ℤ, pos, ◌≡◌, refl, List, [], ◌∷◌, codes, arith}
use linux_system_programming.Posix.{Reply, run, returned, Obeys, zeros}
use linux_system_programming.Spec.Resources.{resources, holding}
use linux_system_programming.Socket.Sample.{sample, gives, failed, brings}
use linux_system_programming.Cpp.SelectEchoServer.{
  select_echo_server_run, select_rounds, accept_client, each_client, client_turn,
  destroy_select_echo_server, destroy_clients,
}
use linux_system_programming.Cpp.TcpServer.{tcp_server_run, destroy_tcp_server, join_all}
use linux_system_programming.Cpp.Dispatch.{
  select_server_example, tcp_server_example, dispatch, cpp_main,
}
use linux_system_programming.Cpp.Dispatch.Whole.{
  Exits, select_server_example-releases, cpp_main-releases,
}

abbrev awakes : List ℤ → Reply
awakes ready = record (gives (pos 1)) { ready = ready }

-- A client arrives, sends two bytes, and leaves; then `select` fails.
abbrev one_client : List Reply
one_client =
    gives (pos 3)
    ∷ gives (pos 0)
    ∷ gives (pos 0)
    ∷ gives (pos 0)
    ∷ awakes (pos 3 ∷ [])
    ∷ gives (pos 4)
    ∷ awakes (pos 4 ∷ [])
    ∷ brings (104 ∷ 105 ∷ [])
    ∷ gives (pos 2)
    ∷ awakes (pos 4 ∷ [])
    ∷ gives (pos 0)
    ∷ gives (pos 0)
    ∷ failed (pos 4)
    ∷ gives (pos 0)
    ∷ []

select_server_example-releases_example :
    Obeys
      (resources 1026)
      (holding [])
      (λ _ b. b ≡ holding [])
      (run (select_server_example sample 9 (zeros 4096) (pos 80) tt) one_client)
unfolding run select_server_example select_echo_server_run select_rounds accept_client each_client
    client_turn destroy_select_echo_server destroy_clients
select_server_example-releases_example =
    select_server_example-releases sample 1024 9 (zeros 4096) (pos 80) one_client (omega arith)
      (ground arith)

abbrev tcp_server_line : List (List ℕ)
tcp_server_line = codes "cpp" ∷ codes "tcp_server" ∷ []

-- the address is taken
abbrev no_address : List Reply
no_address = gives (pos 3) ∷ gives (pos 0) ∷ failed (pos 98) ∷ gives (pos 0) ∷ gives (pos 0) ∷ []

-- what `bind` throws becomes the exit code
failure :
    (run (cpp_main sample 3 (zeros 4096) tcp_server_line) no_address).outcome ≡ returned (pos 1)
unfolding run cpp_main dispatch tcp_server_example tcp_server_run destroy_tcp_server join_all
failure = refl

cpp_main-releases_example :
    Obeys
      (resources 1026)
      (holding [])
      Exits
      (run (cpp_main sample 3 (zeros 4096) tcp_server_line) no_address)
unfolding run cpp_main dispatch tcp_server_example tcp_server_run destroy_tcp_server join_all
cpp_main-releases_example =
    cpp_main-releases sample 1024 3 (zeros 4096) tcp_server_line no_address (omega arith)
      (ground arith)
