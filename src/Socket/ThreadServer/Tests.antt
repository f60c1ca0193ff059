-- ===== src/Socket/ThreadServer/Tests.antt =====
-- Runs of the threaded server and of one of its threads.
use linux_system_programming.Base.{ℕ, pos, ◌≡◌, refl, List, [], ◌∷◌, arith}
use linux_system_programming.Posix.{Reply, run, returned, Obeys}
use linux_system_programming.Spec.Resources.{resources, holding, fd, block}
use linux_system_programming.Spec.Echo.{echo, settled}
use linux_system_programming.Socket.Sample.{sample, peer, gives, brings}
use linux_system_programming.Socket.ThreadServer.{
  ClientInfo, handle_loop, handle_client, serve_loop, multithreaded_echo_server,
}
use linux_system_programming.Socket.ThreadServer.Resources.{
  multithreaded_echo_server-releases, handle_client-releases,
}
use linux_system_programming.Socket.ThreadServer.Echo.{handle_client-echoes}

abbrev buffer : List ℕ
buffer = 0 ∷ 0 ∷ 0 ∷ []

abbrev client : ClientInfo
client = record { client_fd = pos 4; client_addr = peer }

-- A client is handed to a thread; for a second one no thread can be made.
abbrev two_clients : List Reply
two_clients =
    gives (pos 3)
    ∷ gives (pos 0)
    ∷ gives (pos 0)
    ∷ gives (pos 0)
    ∷ gives (pos 100)
    ∷ gives (pos 4)
    ∷ gives (pos 0)
    ∷ gives (pos 0)
    ∷ gives (pos 200)
    ∷ gives (pos 5)
    ∷ gives (pos 11)
    ∷ gives (pos 0)
    ∷ gives (pos 0)
    ∷ []

abbrev talk : List Reply
talk =
    gives (pos 9)
    ∷ brings (104 ∷ 105 ∷ [])
    ∷ gives (pos 9)
    ∷ gives (pos 2)
    ∷ gives (pos 0)
    ∷ gives (pos 9)
    ∷ gives (pos 0)
    ∷ gives (pos 0)
    ∷ []

thread_returns : (run (handle_client sample 12 (pos 100) client buffer) talk).outcome ≡ returned tt
unfolding run handle_client handle_loop
thread_returns = refl

multithreaded_echo_server-releases_example :
    Obeys
      (resources 3)
      (holding [])
      (λ _ b. b ≡ holding [])
      (run (multithreaded_echo_server sample 20) two_clients)
unfolding run multithreaded_echo_server serve_loop
multithreaded_echo_server-releases_example =
    multithreaded_echo_server-releases sample 1024 20 two_clients (ground arith)

handle_client-releases_example :
    Obeys
      (resources 3)
      (holding (fd (pos 4) ∷ block (pos 100) ∷ []))
      (λ _ b. b ≡ holding [])
      (run (handle_client sample 12 (pos 100) client buffer) talk)
unfolding run handle_client handle_loop
handle_client-releases_example =
    handle_client-releases sample 1024 12 (pos 100) client buffer talk (ground arith)

handle_client-echoes_example :
    Obeys echo settled
      (λ _ d. d ≡ settled)
      (run (handle_client sample 12 (pos 100) client buffer) talk)
unfolding run handle_client handle_loop
handle_client-echoes_example =
    handle_client-echoes sample 1024 12 (pos 100) client buffer talk (ground arith)
