-- ===== src/Socket/Dispatch/Usage.antt =====
-- What `main` does with a command line that is not complete.
use linux_system_programming.Base.{
  ℕ, ℤ, pos, ◌≡◌, refl, Bool, true, false, not, ◌&&◌, ◌||◌, ltb, String, codes, List, [], ◌∷◌,
  get_or, length, arith,
}
use linux_system_programming.Posix.{
  Libc, Line, Reply, Prog, ret, print, if◌then◌else◌, Event, printed, returned, run,
}
use linux_system_programming.Socket.Dispatch.{same_text, socket_main}

-- The examples, each with the length of its command line.
abbrev examples : List (String × ℕ)
examples =
    ("simple_server", 2)
    ∷ ("simple_client", 5)
    ∷ ("multi_server", 2)
    ∷ ("udp_server", 2)
    ∷ ("udp_client", 5)
    ∷ ("select_server", 2)
    ∷ ("bandwidth_server", 2)
    ∷ ("bandwidth_client", 4)
    ∷ []

abbrev names_one : List (String × ℕ) → List (List ℕ) → Bool
names_one [] argv = false
names_one ((name, n) ∷ es) argv =
    (same_text (get_or argv 1 []) (codes name) && not (ltb (length argv) n)) || names_one es argv

abbrev pub is_complete : List (List ℕ) → Bool
is_complete argv = not (ltb (length argv) 2) && names_one examples argv

abbrev pub only_prints : List Event → Bool
only_prints [] = true
only_prints (printed l ∷ es) = only_prints es
only_prints (_ ∷ es) = false

-- Programs that only print before they return `v`.
data Quiet (v : ℤ) : Prog ℤ → Type 0 where
  quiet_ret : Quiet v (ret v)
  quiet_print : {l : Line} {p : Prog ℤ} → Quiet v p → Quiet v (print l p)
  quiet_if :
      {b : Bool} {p q : Prog ℤ}
      → (b ≡ true → Quiet v p)
      → (b ≡ false → Quiet v q)
      → Quiet v (if b then p else q)

Quiet-run :
    (v : ℤ) (p : Prog ℤ)
    → Quiet v p
    → (rs : List Reply) → (only_prints (run p rs).events ≡ true) × ((run p rs).outcome ≡ returned v)
unfolding run
Quiet-run v p quiet_ret rs = (refl, refl)
Quiet-run v p (quiet_print h) rs = Quiet-run v _ h rs
Quiet-run v p (quiet_if {b = true} h k) rs = Quiet-run v _ (h refl) rs
Quiet-run v p (quiet_if {b = false} h k) rs = Quiet-run v _ (k refl) rs

socket_main-Quiet :
    (libc : Libc) (rounds : ℕ) (buffer : List ℕ) (argv : List (List ℕ))
    → is_complete argv ≡ false
    → Quiet (pos 1) (socket_main libc rounds buffer argv)
unfolding socket_main
socket_main-Quiet libc rounds buffer argv h =
    quiet_if (λ _. search (quiet_ret, quiet_print) depth 20)
      λ e.
        quiet_if (λ a. absurd (ground arith))
          λ _.
            quiet_if
              (λ a. quiet_if (λ _. search (quiet_ret, quiet_print)) (λ b. absurd (ground arith)))
              λ _.
                quiet_if (λ a. absurd (ground arith))
                  λ _.
                    quiet_if (λ a. absurd (ground arith))
                      λ _.
                        quiet_if
                          (λ a.
                            quiet_if (λ _. search (quiet_ret, quiet_print))
                              (λ b. absurd (ground arith)))
                          λ _.
                            quiet_if (λ a. absurd (ground arith))
                              λ _.
                                quiet_if (λ a. absurd (ground arith))
                                  λ _.
                                    quiet_if
                                      (λ a.
                                        quiet_if (λ _. search (quiet_ret, quiet_print))
                                          (λ b. absurd (ground arith)))
                                      λ _. search (quiet_ret, quiet_print)

-- A command line that names no example, or one with too few arguments for it, makes `main` print and
-- return 1: it makes no call to the system.
pub socket_main-only_prints :
    (libc : Libc) (rounds : ℕ) (buffer : List ℕ) (argv : List (List ℕ)) (rs : List Reply)
    → is_complete argv ≡ false
    → (only_prints (run (socket_main libc rounds buffer argv) rs).events ≡ true)
      × ((run (socket_main libc rounds buffer argv) rs).outcome ≡ returned (pos 1))
socket_main-only_prints libc rounds buffer argv rs h =
    Quiet-run (pos 1) (socket_main libc rounds buffer argv)
      (socket_main-Quiet libc rounds buffer argv h) rs
