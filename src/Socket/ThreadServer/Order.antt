-- ===== src/Socket/ThreadServer/Order.antt =====
-- The order of multithreaded_echo_server's calls.
use linux_system_programming.Posix.{AllLawful, run, Obeys, Safe-Obeys, Reply}
use linux_system_programming.Base.{ℕ, zero, suc, ℤ, List}
use linux_system_programming.Posix.{Libc, Safe}
use linux_system_programming.Spec.Serving.{start, listening, serving, NeverListened}
use linux_system_programming.Spec.Serving.Rules.{serving_rules, serve_endless}
use linux_system_programming.Socket.ThreadServer.{serve_loop, multithreaded_echo_server}

module _ (libc : Libc) {limit : ℕ} where
  serve_loop-Serving :
      (rounds : ℕ) (x : ℤ) → Safe limit serving (λ _ _. ⊥) (serve_loop libc rounds x) (listening x)
  unfolding serve_loop
  serve_loop-Serving zero x = search serving_rules
  serve_loop-Serving (suc rounds) x =
      search (serving_rules, serve_loop-Serving rounds) depth 40 fits 20000

  multithreaded_echo_server-Serving :
      (rounds : ℕ)
      → Safe limit serving (λ _ s. NeverListened s) (multithreaded_echo_server libc rounds) start
  unfolding multithreaded_echo_server
  multithreaded_echo_server-Serving rounds =
      search (serving_rules, serve_endless, serve_loop-Serving, tt) depth 60 fits 20000

-- Against any lawful history of replies `multithreaded_echo_server` binds only its new socket, listens
-- only after `bind` succeeded, accepts only on the listening socket, and returns only if it never got
-- as far as listening.
pub multithreaded_echo_server-serves :
    (libc : Libc) (limit : ℕ) (rounds : ℕ) (rs : List Reply)
    → AllLawful limit (run (multithreaded_echo_server libc rounds) rs).events
    → Obeys serving start (λ _ s. NeverListened s) (run (multithreaded_echo_server libc rounds) rs)
multithreaded_echo_server-serves libc limit rounds rs l =
    Safe-Obeys serving (multithreaded_echo_server-Serving libc rounds) rs l
