-- ===== src/Cpp/UdpServer/Tests.antt =====
-- A run of the C++ UDP server: a datagram is answered, then a read fails.
use linux_system_programming.Base.{pos, ◌≡◌, List, [], ◌∷◌, arith}
use linux_system_programming.Posix.{Reply, run, Obeys, zeros}
use linux_system_programming.Spec.Echo.{echo, settled}
use linux_system_programming.Socket.Sample.{sample, gives, failed, brings}
use linux_system_programming.Cpp.Socket.{no_socket}
use linux_system_programming.Cpp.UdpServer.{echo_datagrams, udp_server_run}
use linux_system_programming.Cpp.UdpServer.Echo.{udp_server_run-echoes}

abbrev datagrams : List Reply
datagrams =
    gives (pos 3)
    ∷ gives (pos 0)
    ∷ gives (pos 0)
    ∷ brings (104 ∷ 105 ∷ [])
    ∷ gives (pos 2)
    ∷ failed (pos 4)
    ∷ []

udp_server_run-echoes_example :
    Obeys echo settled
      (λ _ d. d ≡ settled)
      (run (udp_server_run sample 3 (zeros 4096) (pos 80) no_socket) datagrams)
unfolding run udp_server_run echo_datagrams
udp_server_run-echoes_example =
    udp_server_run-echoes sample 1024 3 (zeros 4096) (pos 80) datagrams (ground arith)
