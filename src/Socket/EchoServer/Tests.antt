-- ===== src/Socket/EchoServer/Tests.antt =====
-- Runs of the single-threaded server: two bytes are sent back, the client leaves, and an `accept` fails.
use linux_system_programming.Base.{ℕ, pos, ◌≡◌, ◌≢◌, refl, List, [], ◌∷◌, arith}
use linux_system_programming.Posix.{Reply, run, blocked, returned, cut, Obeys}
use linux_system_programming.Spec.Resources.{resources, holding}
use linux_system_programming.Spec.Echo.{echo, settled}
use linux_system_programming.Spec.Serving.{serving, start, NeverListened}
use linux_system_programming.Socket.Sample.{sample, gives, failed, brings}
use linux_system_programming.Socket.EchoServer.{echo_loop, accept_loop, simple_echo_server}
use linux_system_programming.Socket.EchoServer.Resources.{simple_echo_server-releases}
use linux_system_programming.Socket.EchoServer.Echo.{simple_echo_server-echoes}
use linux_system_programming.Socket.EchoServer.Order.{simple_echo_server-serves}
use linux_system_programming.Socket.EchoServer.Fuel.{simple_echo_server-enough}

abbrev buffer : List ℕ
buffer = 0 ∷ 0 ∷ 0 ∷ []

abbrev visit : List Reply
visit =
    gives (pos 3)
    ∷ gives (pos 0)
    ∷ gives (pos 0)
    ∷ gives (pos 0)
    ∷ gives (pos 4)
    ∷ brings (104 ∷ 105 ∷ [])
    ∷ gives (pos 2)
    ∷ gives (pos 0)
    ∷ gives (pos 0)
    ∷ failed (pos 24)
    ∷ []

waits_again : (run (simple_echo_server sample 12 buffer) visit).outcome ≡ blocked
unfolding run simple_echo_server accept_loop echo_loop
waits_again = refl

port_taken :
    (run
      (simple_echo_server sample 12 buffer)
      (gives (pos 3) ∷ gives (pos 0) ∷ failed (pos 98) ∷ gives (pos 0) ∷ [])).outcome
    ≡ returned tt
unfolding run simple_echo_server
port_taken = refl

simple_echo_server-releases_example :
    Obeys
      (resources 2)
      (holding [])
      (λ _ b. b ≡ holding [])
      (run (simple_echo_server sample 12 buffer) visit)
unfolding run simple_echo_server accept_loop echo_loop
simple_echo_server-releases_example =
    simple_echo_server-releases sample 1024 12 buffer visit (ground arith)

simple_echo_server-echoes_example :
    Obeys echo settled (λ _ d. d ≡ settled) (run (simple_echo_server sample 12 buffer) visit)
unfolding run simple_echo_server accept_loop echo_loop
simple_echo_server-echoes_example =
    simple_echo_server-echoes sample 1024 12 buffer visit (ground arith)

simple_echo_server-serves_example :
    Obeys serving start (λ _ s. NeverListened s) (run (simple_echo_server sample 12 buffer) visit)
unfolding run simple_echo_server accept_loop echo_loop
simple_echo_server-serves_example =
    simple_echo_server-serves sample 1024 12 buffer visit (ground arith)

simple_echo_server-enough_example : (run (simple_echo_server sample 12 buffer) visit).outcome ≢ cut
unfolding run simple_echo_server accept_loop echo_loop
simple_echo_server-enough_example = simple_echo_server-enough sample 12 buffer visit (omega arith)
