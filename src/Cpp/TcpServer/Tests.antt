-- ===== src/Cpp/TcpServer/Tests.antt =====
-- A thread of the C++ server: it echoes two bytes, and then the client leaves, or the read throws.
use linux_system_programming.Base.{pos, ◌≢◌, ◌≡◌, refl, List, [], ◌∷◌, arith}
use linux_system_programming.Posix.{Reply, cut, run, returned, Obeys, zeros}
use linux_system_programming.Spec.Resources.{resources, holding, fd}
use linux_system_programming.Socket.Sample.{sample, gives, failed, brings, peer}
use linux_system_programming.Spec.Echo.{echo, settled}
use linux_system_programming.Cpp.TcpServer.Echo.{handle_client-returns_bytes}
use linux_system_programming.Cpp.Socket.{Socket}
use linux_system_programming.Cpp.TcpServer.{handle_client, handle_client_impl, echo_client}
use linux_system_programming.Cpp.TcpServer.Fuel.{handle_client-lasts}
use linux_system_programming.Cpp.TcpServer.Resources.{handle_client-closes}

abbrev client : Socket
client = record { fd = pos 5 }

abbrev left : List Reply
left = brings (104 ∷ 105 ∷ []) ∷ gives (pos 2) ∷ gives (pos 0) ∷ gives (pos 0) ∷ []

threw_out :
    (run
      (handle_client sample (handle_client_impl sample 3 (zeros 4096)) client peer)
      (failed (pos 104) ∷ gives (pos 0) ∷ [])).outcome
    ≡ returned tt
unfolding run handle_client handle_client_impl echo_client
threw_out = refl

handle_client-closes_example :
    Obeys
      (resources 1)
      (holding (fd client.fd ∷ []))
      (λ _ b. b ≡ holding [])
      (run (handle_client sample (handle_client_impl sample 3 (zeros 4096)) client peer) left)
unfolding run handle_client handle_client_impl echo_client
handle_client-closes_example =
    handle_client-closes sample 1024 3 (zeros 4096) peer client left refl (ground arith)

handle_client-returns_bytes_example :
    Obeys echo settled
      (λ _ d. d ≡ settled)
      (run (handle_client sample (handle_client_impl sample 3 (zeros 4096)) client peer) left)
unfolding run handle_client handle_client_impl echo_client
handle_client-returns_bytes_example =
    handle_client-returns_bytes sample 1024 3 (zeros 4096) peer client left (ground arith)

handle_client-lasts_example :
    (run (handle_client sample (handle_client_impl sample 5 (zeros 4096)) client peer) left).outcome
    ≢ cut
handle_client-lasts_example =
    handle_client-lasts sample 5 (zeros 4096) client peer left (omega arith)
