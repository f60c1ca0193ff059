-- ===== src/Socket/SelectServer/Tests.antt =====
-- A run of the select server with eight places: a client comes, is answered and leaves.
use linux_system_programming.Base.{pos, ℤ, ◌≡◌, ◌≢◌, arith, refl, List, [], ◌∷◌}
use linux_system_programming.Posix.{Libc, Reply, run, returned, cut, Obeys}
use linux_system_programming.Socket.Sample.{sample, gives, failed, brings}
use linux_system_programming.Socket.Nonblocking.{set_nonblocking}
use linux_system_programming.Socket.SelectServer.{
  serve_ready, close_slots, accept_ready, select_loop, select_based_server,
}
use linux_system_programming.Socket.SelectServer.Reference.{reference_server}
use linux_system_programming.Spec.Echo.{echo, settled}
use linux_system_programming.Socket.SelectServer.Reference.Echo.{select_based_server-echoes}
use linux_system_programming.Socket.SelectServer.Reference.Fuel.{select_based_server-enough}
use linux_system_programming.Socket.SelectServer.Reference.Refinement.{
  select_based_server-reference_server,
}

abbrev small : Libc
small = record sample { fd_setsize = 8 }

abbrev shows : List ℤ → Reply
shows ready = record (gives (pos 1)) { ready = ready }

abbrev session : List Reply
session =
    gives (pos 3)
    ∷ gives (pos 0)
    ∷ gives (pos 2)
    ∷ gives (pos 0)
    ∷ gives (pos 0)
    ∷ gives (pos 0)
    ∷ shows (pos 3 ∷ [])
    ∷ gives (pos 4)
    ∷ gives (pos 0)
    ∷ shows (pos 3 ∷ pos 4 ∷ [])
    ∷ gives (pos 5)
    ∷ brings (104 ∷ 105 ∷ [])
    ∷ gives (pos 2)
    ∷ shows (pos 4 ∷ [])
    ∷ gives (pos 0)
    ∷ gives (pos 0)
    ∷ failed (pos 4)
    ∷ gives (pos 0)
    ∷ gives (pos 0)
    ∷ []

ends : (run (select_based_server small 9 []) session).outcome ≡ returned tt
unfolding run select_based_server set_nonblocking select_loop accept_ready serve_ready close_slots
ends = refl

select_based_server-reference_server_example :
    run (select_based_server small 9 []) session ≡ run (reference_server small 9 []) session
select_based_server-reference_server_example =
    select_based_server-reference_server small 9 [] session

select_based_server-enough_example : (run (select_based_server small 30 []) session).outcome ≢ cut
select_based_server-enough_example = select_based_server-enough small 30 [] session (omega arith)

select_based_server-echoes_example :
    Obeys echo settled (λ _ d. d ≡ settled) (run (select_based_server small 9 []) session)
unfolding run select_based_server set_nonblocking select_loop accept_ready serve_ready close_slots
select_based_server-echoes_example =
    select_based_server-echoes small 8 9 [] session (omega arith) (ground arith)
