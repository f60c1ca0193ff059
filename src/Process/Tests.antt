-- ===== src/Process/Tests.antt =====
-- Runs of the process program: as the first process, and as its first child.
use linux_system_programming.Base.{pos, ◌≡◌, refl, List, [], ◌∷◌}
use linux_system_programming.Posix.{Reply, run, returned}
use linux_system_programming.Socket.Sample.{sample, gives}
use linux_system_programming.Process.{process_main, execute_program, spawn_children, wait_children}

abbrev as_parent : List Reply
as_parent =
    gives (pos 100)
    ∷ gives (pos 101)
    ∷ record (gives (pos 101)) { errno = pos 42 }
    ∷ gives (pos 102)
    ∷ gives (pos 102)
    ∷ gives (pos 103)
    ∷ gives (pos 104)
    ∷ gives (pos 105)
    ∷ gives (pos 103)
    ∷ gives (pos 104)
    ∷ gives (pos 105)
    ∷ []

abbrev as_child : List Reply
as_child = gives (pos 100) ∷ gives (pos 0) ∷ gives (pos 101) ∷ gives (pos 100) ∷ gives (pos 0) ∷ []

child_status : (run (process_main sample) as_child).outcome ≡ returned (pos 42)
unfolding run process_main
child_status = refl

parent_status : (run (process_main sample) as_parent).outcome ≡ returned (pos 0)
unfolding run process_main execute_program spawn_children wait_children
parent_status = refl
