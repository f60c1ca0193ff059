-- ===== src/Cpp/Dispatch/Whole.antt =====
-- The select server's example, and the program as a whole.
mod Tests
use linux_system_programming.Base.{
  arith, ℕ, zero, suc, ℤ, pos, ◌≡◌, refl, ◌≤◌, ◌⊎◌, inl, inr, List, [], ◌∷◌, ltb, length,
}
use linux_system_programming.Posix.{
  lit, Libc, SockAddr, Prog, Line, print, ret, and_then, Reply, run, AllLawful, Obeys,
}
use linux_system_programming.Spec.Resources.{resources, Resource, fd, Holdings, holding}
use linux_system_programming.Spec.Resources.Rules.{Tidy-Obeys, Tidy, res_ret, res_print, res_if}
use linux_system_programming.Spec.Resources.Owners.{res_bind_holding}
use linux_system_programming.Spec.Resources.Places.{res_more, res_bind_known}
use linux_system_programming.Cpp.Scopes.{scoped-Keeps}
use linux_system_programming.Cpp.Method.{
  cerr, what, Exception, try_catch_all, Tried, ok, threw, Method, pure, ◌>>◌, all_handled, resume,
}
use linux_system_programming.Cpp.SelectEchoServer.{
  select_echo_server, select_echo_server_run, destroy_select_echo_server,
}
use linux_system_programming.Cpp.SelectEchoServer.Lifetime.{
  select_echo_server_run-Tidy, destroy_select_echo_server-Tidy, all_owned,
}
use linux_system_programming.Cpp.Dispatch.{
  leave_main, Main, select_server_example, dispatch, cpp_main, tcp_server_example,
  bandwidth_server_example, tcp_client_example, udp_server_example, udp_client_example,
  bandwidth_client_example,
}
use linux_system_programming.Cpp.Dispatch.Resources.{
  tcp_server_example-Tidy, bandwidth_server_example-Tidy, tcp_client_example-Tidy,
  udp_server_example-Tidy, udp_client_example-Tidy, bandwidth_client_example-Tidy,
}

-- nothing is held, and the result is 0 or 1
abbrev pub Exits : ℤ → Holdings → Type 0
Exits n b = (b ≡ holding []) × ((n ≡ pos 0) ⊎ (n ≡ pos 1))

module _ (libc : Libc) (rounds : ℕ) (buffer : List ℕ) {limit : ℕ}
    (le : limit ≤ libc.fd_setsize) where
  select_server_example-Tidy :
      (port : ℤ)
      → Tidy
          (suc (suc libc.fd_setsize))
          limit
          (λ _ b. b ≡ holding [])
          (select_server_example libc rounds buffer port tt)
          []
  unfolding select_server_example
  select_server_example-Tidy port =
      scoped-Keeps (λ _. []) (λ r. all_owned r.1) select_echo_server destroy_select_echo_server
        (select_echo_server_run libc rounds buffer port) tt refl
        (select_echo_server_run-Tidy libc le rounds buffer port)
        (λ r. destroy_select_echo_server-Tidy r.1)

  -- an exit code, or something thrown
  abbrev Coded : Tried ℤ → Type 0
  Coded (ok n) = (n ≡ pos 0) ⊎ (n ≡ pos 1)
  Coded (threw e) = Unit

  abbrev Ends : Tried ℤ × Unit {0} → Holdings → Type 0
  Ends r b = (b ≡ holding []) × Coded r.0

  -- an exit code, and nothing thrown
  abbrev Caught : Tried ℤ → Type 0
  Caught (ok n) = (n ≡ pos 0) ⊎ (n ≡ pos 1)
  Caught (threw e) = ⊥

  abbrev EndsCaught : Tried ℤ × Unit {0} → Holdings → Type 0
  EndsCaught r b = (b ≡ holding []) × Caught r.0

  -- an example, after which `main` returns 0
  ends :
      (m : Main (Unit {0}))
      → Tidy (suc (suc libc.fd_setsize)) limit (λ _ b. b ≡ holding []) (m tt) []
      → Tidy (suc (suc libc.fd_setsize)) limit Ends ((m >> pure (pos 0)) tt) []
  ends m h = res_bind_holding (λ _. []) (m tt) _ h after
    where
      after :
          (r : Tried (Unit {0}) × Unit {0})
          → Tidy (suc (suc libc.fd_setsize)) limit Ends (resume (λ _. pure (pos 0)) r) []
      after (ok _, _) = res_ret (refl, inl refl)
      after (threw e, _) = res_ret (refl, tt)

  one :
      {A : Type 0} {Q : A → Holdings → Type 0} {p : Prog A}
      → Tidy 1 limit Q p []
      → Tidy (suc (suc libc.fd_setsize)) limit Q p []
  one h = res_more (omega arith) h

  two :
      {A : Type 0} {Q : A → Holdings → Type 0} {p : Prog A}
      → Tidy 2 limit Q p []
      → Tidy (suc (suc libc.fd_setsize)) limit Q p []
  two h = res_more (omega arith) h

  refused :
      {x : Line} → Tidy (suc (suc libc.fd_setsize)) limit Ends (print x (ret (ok (pos 1), tt))) []
  refused = res_print (res_ret (refl, inr refl))

  dispatch-Tidy :
      (argv : List (List ℕ))
      → Tidy (suc (suc libc.fd_setsize)) limit Ends (dispatch libc rounds buffer argv tt) []
  unfolding dispatch
  dispatch-Tidy argv =
      res_if
        (λ _.
          ends (tcp_server_example libc rounds buffer _)
            (two (tcp_server_example-Tidy libc rounds buffer _)))
        (λ _.
          res_if
            (λ _.
              res_if (λ _. refused)
                (λ _.
                  ends (tcp_client_example libc rounds buffer _ _ _)
                    (one (tcp_client_example-Tidy libc rounds buffer _ _ _))))
            (λ _.
              res_if
                (λ _.
                  ends (udp_server_example libc rounds buffer _)
                    (one (udp_server_example-Tidy libc rounds buffer _)))
                (λ _.
                  res_if
                    (λ _.
                      res_if (λ _. refused)
                        (λ _.
                          ends (udp_client_example libc rounds buffer _ _ _)
                            (one (udp_client_example-Tidy libc rounds buffer _ _ _))))
                    (λ _.
                      res_if
                        (λ _.
                          ends (select_server_example libc rounds buffer _)
                            (select_server_example-Tidy _))
                        (λ _.
                          res_if
                            (λ _.
                              ends (bandwidth_server_example libc rounds buffer _)
                                (two (bandwidth_server_example-Tidy libc rounds buffer _)))
                            (λ _.
                              res_if
                                (λ _.
                                  res_if (λ _. refused)
                                    (λ _. ends (bandwidth_client_example libc rounds buffer _ _ _) (
                                      one
                                        (bandwidth_client_example-Tidy libc rounds buffer _ _ _))))
                                (λ _. refused)))))))

  cpp_main-Tidy :
      (argv : List (List ℕ))
      → Tidy (suc (suc libc.fd_setsize)) limit Exits (cpp_main libc rounds buffer argv) []
  unfolding cpp_main
  cpp_main-Tidy argv =
      let failed : (e : Exception) → Main ℤ =
        (λ e. do cerr (lit "Error: " ∷ what libc e); pure (pos 1)) in
      res_if (λ _. search (res_print, res_ret, inr) depth 30)
        (λ _.
          res_bind_known (λ _. []) (λ r. Caught r.0)
            (try_catch_all (dispatch libc rounds buffer argv) failed tt) _
            (res_bind_known (λ _. []) (λ r. Coded r.0) (dispatch libc rounds buffer argv tt) _
              (dispatch-Tidy argv) caught)
            exited)
    where
      caught :
          (r : Tried ℤ × Unit {0})
          → Coded r.0
          → Tidy
              (suc (suc libc.fd_setsize))
              limit
              EndsCaught
              (all_handled (λ e. do cerr (lit "Error: " ∷ what libc e); pure (pos 1)) r)
              []
      caught (ok n, _) h = res_ret (refl, h)
      caught (threw e, _) h = res_print (res_ret (refl, inr refl))

      exited :
          (r : Tried ℤ × Unit {0})
          → Caught r.0
          → Tidy (suc (suc libc.fd_setsize)) limit Exits (leave_main r.0) []
      exited (ok n, _) h = res_ret (refl, h)
      exited (threw e, _) h = absurd h

-- With a limit on open descriptors that is at most FD_SETSIZE and any lawful history of replies, the
-- C++ select server makes calls only on descriptors that it holds, at most FD_SETSIZE + 2 at a time,
-- gives `FD_SET` and `FD_ISSET` only descriptors that fit, does not fault, and where its object's scope
-- ends, by a return or by an exception, it holds none.
pub select_server_example-releases :
    (libc : Libc) (limit rounds : ℕ) (buffer : List ℕ) (port : ℤ) (rs : List Reply)
    → limit ≤ libc.fd_setsize
    → AllLawful limit (run (select_server_example libc rounds buffer port tt) rs).events
    → Obeys
        (resources (suc (suc libc.fd_setsize)))
        (holding [])
        (λ _ b. b ≡ holding [])
        (run (select_server_example libc rounds buffer port tt) rs)
select_server_example-releases libc limit rounds buffer port rs le l =
    Tidy-Obeys (select_server_example-Tidy libc rounds buffer le port) rs l

-- For any command line, with a limit on open descriptors that is at most FD_SETSIZE and any lawful
-- history of replies, the C++ program makes calls only on descriptors that it holds, does not fault, no
-- exception leaves `main`, which would fault, and where `main` returns it holds none and the result is
-- 0 or 1.
pub cpp_main-releases :
    (libc : Libc) (limit rounds : ℕ) (buffer : List ℕ) (argv : List (List ℕ)) (rs : List Reply)
    → limit ≤ libc.fd_setsize
    → AllLawful limit (run (cpp_main libc rounds buffer argv) rs).events
    → Obeys
        (resources (suc (suc libc.fd_setsize)))
        (holding [])
        Exits
        (run (cpp_main libc rounds buffer argv) rs)
cpp_main-releases libc limit rounds buffer argv rs le l =
    Tidy-Obeys (cpp_main-Tidy libc rounds buffer le argv) rs l
