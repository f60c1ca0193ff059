-- ===== src/Socket/Bandwidth/Tests.antt =====
-- Runs of the two ends of the bandwidth test.
use linux_system_programming.Base.{pos, ◌++◌, ◌≡◌, refl, List, [], ◌∷◌, arith}
use linux_system_programming.Posix.{Reply, run, returned, Obeys}
use linux_system_programming.Spec.Meter.{meter}
use linux_system_programming.Socket.Sample.{gives, brings}
use linux_system_programming.Socket.Bandwidth.{receive_loop, send_loop}
use linux_system_programming.Socket.Bandwidth.Total.{
  IsTotal, receive_loop-IsTotal, send_loop-IsTotal,
}

-- at times 0 and 1 something arrives, then the client leaves
abbrev received : List Reply
received =
    gives (pos 0)
    ∷ brings (1 ∷ 2 ∷ 3 ∷ [])
    ∷ gives (pos 1)
    ∷ brings (4 ∷ 5 ∷ [])
    ∷ gives (pos 2)
    ∷ gives (pos 0)
    ∷ []

abbrev served : List Reply
served =
    gives (pos 3)
      ∷ gives (pos 0)
      ∷ gives (pos 0)
      ∷ gives (pos 0)
      ∷ gives (pos 0)
      ∷ gives (pos 0)
      ∷ gives (pos 4)
      ∷ gives (pos 0)
      ∷ received
    ++ gives (pos 2) ∷ gives (pos 0) ∷ gives (pos 0) ∷ []

-- three bytes go, two go, then the time is up
abbrev sent : List Reply
sent = gives (pos 0) ∷ gives (pos 3) ∷ gives (pos 1) ∷ gives (pos 2) ∷ gives (pos 10) ∷ []

abbrev client_replies : List Reply
client_replies =
    gives (pos 3)
    ∷ gives (pos 0)
    ∷ gives (pos 0)
    ∷ gives (pos 1)
    ∷ gives (pos 0)
    ∷ gives (pos 0)
    ∷ gives (pos 0)
    ∷ gives (pos 3)
    ∷ gives (pos 10)
    ∷ gives (pos 10)
    ∷ gives (pos 0)
    ∷ []

five_received : (run (receive_loop 20 (pos 4) (pos 0) 0) received).outcome ≡ returned 5
unfolding run receive_loop
five_received = refl

five_sent :
    (run (send_loop 20 (pos 4) (1 ∷ 2 ∷ 3 ∷ []) (pos 10) (pos 0) 0) sent).outcome ≡ returned 5
unfolding run send_loop
five_sent = refl

receive_loop-IsTotal_example :
    Obeys meter 0 IsTotal (run (receive_loop 20 (pos 4) (pos 0) 0) received)
unfolding run receive_loop
receive_loop-IsTotal_example = receive_loop-IsTotal 1024 20 (pos 4) (pos 0) received (ground arith)

send_loop-IsTotal_example :
    Obeys meter 0 IsTotal (run (send_loop 20 (pos 4) (1 ∷ 2 ∷ 3 ∷ []) (pos 10) (pos 0) 0) sent)
unfolding run send_loop
send_loop-IsTotal_example =
    send_loop-IsTotal 1024 20 (pos 4) (1 ∷ 2 ∷ 3 ∷ []) (pos 10) (pos 0) sent (ground arith)
