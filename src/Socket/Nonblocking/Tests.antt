-- ===== src/Socket/Nonblocking/Tests.antt =====
-- Runs of the non-blocking client: it waits and is connected; or the wait ends without an answer.
use linux_system_programming.Base.{pos, minus_one, ◌++◌, ◌≡◌, refl, List, [], ◌∷◌, arith}
use linux_system_programming.Posix.{Reply, run, returned, Obeys}
use linux_system_programming.Spec.Resources.{resources, holding}
use linux_system_programming.Socket.Sample.{sample, gives, failed}
use linux_system_programming.Socket.Nonblocking.{
  set_nonblocking, await_connection, nonblocking_connect,
}
use linux_system_programming.Socket.Nonblocking.Resources.{Handed, nonblocking_connect-hands_over}

abbrev begun : List Reply
begun = gives (pos 3) ∷ gives (pos 2) ∷ gives (pos 0) ∷ gives (pos 1) ∷ failed (pos 115) ∷ []

abbrev connected : List Reply
connected = begun ++ gives (pos 1) ∷ gives (pos 0) ∷ []

gets_socket :
    (run (nonblocking_connect sample [] (pos 80) (pos 5)) connected).outcome ≡ returned (pos 3)
unfolding run nonblocking_connect set_nonblocking await_connection
gets_socket = refl

times_out :
    (run
      (nonblocking_connect sample [] (pos 80) (pos 5))
      (begun ++ gives (pos 0) ∷ gives (pos 0) ∷ [])).outcome
    ≡ returned minus_one
unfolding run nonblocking_connect set_nonblocking await_connection
times_out = refl

nonblocking_connect-hands_over_example :
    Obeys
      (resources 1)
      (holding [])
      Handed
      (run (nonblocking_connect sample [] (pos 80) (pos 5)) connected)
unfolding run nonblocking_connect set_nonblocking await_connection
nonblocking_connect-hands_over_example =
    nonblocking_connect-hands_over sample 1024 [] (pos 80) (pos 5) connected (omega arith)
      (ground arith)
