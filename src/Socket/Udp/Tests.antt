-- ===== src/Socket/Udp/Tests.antt =====
-- Runs of the UDP server and client.
use linux_system_programming.Base.{ℕ, pos, minus_one, ◌≡◌, refl, List, [], ◌∷◌, arith}
use linux_system_programming.Posix.{Reply, run, returned, Obeys, zeros, length-zeros}
use linux_system_programming.Spec.Echo.{echo, settled}
use linux_system_programming.Spec.Asking.{asking, Reported}
use linux_system_programming.Spec.Asking
use linux_system_programming.Socket.Sample.{sample, gives, failed, brings}
use linux_system_programming.Socket.Udp.{datagram_loop, udp_echo_server, udp_client}
use linux_system_programming.Socket.Udp.Echo.{udp_echo_server-echoes}
use linux_system_programming.Socket.Udp.Order.{udp_client-asks}

abbrev buffer : List ℕ
buffer = 0 ∷ 0 ∷ 0 ∷ []

-- a datagram, a failure, and an empty datagram whose echo fails
abbrev datagrams : List Reply
datagrams =
    gives (pos 3)
    ∷ gives (pos 0)
    ∷ gives (pos 0)
    ∷ brings (104 ∷ 105 ∷ [])
    ∷ gives (pos 2)
    ∷ failed (pos 4)
    ∷ brings []
    ∷ failed (pos 1)
    ∷ []

abbrev text : List ℕ
text = 104 ∷ 105 ∷ []

abbrev answered : List Reply
answered =
    gives (pos 3) ∷ gives (pos 0) ∷ gives (pos 1) ∷ gives (pos 2) ∷ brings text ∷ gives (pos 0) ∷ []

no_answer :
    (run (udp_client sample text text text (zeros 4096)) (
      gives (pos 3)
      ∷ gives (pos 0)
      ∷ gives (pos 1)
      ∷ gives (pos 2)
      ∷ failed (pos 11)
      ∷ gives (pos 0)
      ∷ [])).outcome
    ≡ returned minus_one
unfolding run udp_client
no_answer = refl

udp_echo_server-echoes_example :
    Obeys echo settled (λ _ d. d ≡ settled) (run (udp_echo_server sample 12 buffer) datagrams)
unfolding run udp_echo_server datagram_loop
udp_echo_server-echoes_example =
    udp_echo_server-echoes sample 1024 12 buffer datagrams (ground arith)

udp_client-asks_example :
    Obeys
      (asking text)
      Asking.start
      Reported
      (run (udp_client sample text text text (zeros 4096)) answered)
unfolding run udp_client
udp_client-asks_example =
    udp_client-asks sample 1024 text text text (zeros 4096) answered (length-zeros 4096)
      (ground arith)
