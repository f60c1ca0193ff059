-- ===== src/Socket/Dispatch/Tests.antt =====
-- A command line without the message, and one that starts the UDP server on a taken port.
use linux_system_programming.Base.{ℕ, pos, ◌≡◌, refl, true, codes, List, [], ◌∷◌}
use linux_system_programming.Posix.{run, returned}
use linux_system_programming.Socket.Sample.{sample, gives, failed}
use linux_system_programming.Socket.Udp.{udp_echo_server}
use linux_system_programming.Socket.Dispatch.{socket_main}
use linux_system_programming.Socket.Dispatch.Usage.{only_prints, socket_main-only_prints}

abbrev no_message : List (List ℕ)
no_message = codes "socket_examples" ∷ codes "udp_client" ∷ codes "127.0.0.1" ∷ codes "8081" ∷ []

starts :
    (run
      (socket_main sample 3 [] (codes "socket_examples" ∷ codes "udp_server" ∷ []))
      (gives (pos 3) ∷ gives (pos 0) ∷ failed (pos 98) ∷ gives (pos 0) ∷ [])).outcome
    ≡ returned (pos 0)
unfolding run socket_main udp_echo_server
starts = refl

socket_main-only_prints_example :
    (only_prints (run (socket_main sample 3 [] no_message) []).events ≡ true)
    × ((run (socket_main sample 3 [] no_message) []).outcome ≡ returned (pos 1))
socket_main-only_prints_example = socket_main-only_prints sample 3 [] no_message [] refl
