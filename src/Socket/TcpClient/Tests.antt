-- ===== src/Socket/TcpClient/Tests.antt =====
-- Runs of the TCP client: it connects, sends two bytes and reads two; or it is refused.
use linux_system_programming.Base.{ℕ, pos, minus_one, ◌≡◌, refl, List, [], ◌∷◌, arith}
use linux_system_programming.Posix.{Reply, run, returned, Obeys, zeros, length-zeros}
use linux_system_programming.Spec.Asking.{asking, start, Reported}
use linux_system_programming.Socket.Sample.{sample, gives, failed, brings}
use linux_system_programming.Socket.TcpClient.{simple_tcp_client}
use linux_system_programming.Socket.TcpClient.Order.{simple_tcp_client-asks}

abbrev text : List ℕ
text = 104 ∷ 105 ∷ []

abbrev answered : List Reply
answered =
    gives (pos 3)
    ∷ gives (pos 0)
    ∷ gives (pos 1)
    ∷ gives (pos 0)
    ∷ gives (pos 2)
    ∷ brings text
    ∷ gives (pos 0)
    ∷ []

refused :
    (run (simple_tcp_client sample text text text (zeros 4096)) (
      gives (pos 3)
      ∷ gives (pos 0)
      ∷ gives (pos 1)
      ∷ failed (pos 111)
      ∷ gives (pos 0)
      ∷ [])).outcome
    ≡ returned minus_one
unfolding run simple_tcp_client
refused = refl

simple_tcp_client-asks_example :
    Obeys
      (asking text)
      start
      Reported
      (run (simple_tcp_client sample text text text (zeros 4096)) answered)
unfolding run simple_tcp_client
simple_tcp_client-asks_example =
    simple_tcp_client-asks sample 1024 text text text (zeros 4096) answered (length-zeros 4096)
      (ground arith)
