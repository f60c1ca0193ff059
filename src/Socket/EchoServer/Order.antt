-- ===== src/Socket/EchoServer/Order.antt =====
-- The order of simple_echo_server's calls.
use linux_system_programming.Posix.{AllLawful, run, Obeys, Safe-Obeys, Reply}
use linux_system_programming.Base.{ℕ, zero, suc, ℤ, ◌≡◌, List}
use linux_system_programming.Posix.{Libc, Safe}
use linux_system_programming.Spec.Serving.{Stage, start, listening, serving, NeverListened}
use linux_system_programming.Spec.Serving.Rules.{serving_rules, serve_bind_callee, serve_endless}
use linux_system_programming.Socket.EchoServer.{echo_loop, accept_loop, simple_echo_server}

module _ {limit : ℕ} where
  echo_loop-Serving :
      (rounds : ℕ) (x : ℤ) (buffer : List ℕ) (s : Stage)
      → Safe limit serving (λ _ t. t ≡ s) (echo_loop rounds x buffer) s
  unfolding echo_loop
  echo_loop-Serving zero x buffer s = search serving_rules
  echo_loop-Serving (suc rounds) x buffer s =
      search (serving_rules, echo_loop-Serving rounds) depth 20 fits 20000

module _ (libc : Libc) {limit : ℕ} where
  accept_loop-Serving :
      (rounds : ℕ) (x : ℤ) (buffer : List ℕ)
      → Safe limit serving (λ _ _. ⊥) (accept_loop libc rounds x buffer) (listening x)
  unfolding accept_loop
  accept_loop-Serving zero x buffer = search serving_rules
  accept_loop-Serving (suc rounds) x buffer =
      search (serving_rules, serve_bind_callee, accept_loop-Serving rounds, echo_loop-Serving) depth
        40 fits 20000

  simple_echo_server-Serving :
      (rounds : ℕ) (buffer : List ℕ)
      → Safe limit serving (λ _ s. NeverListened s) (simple_echo_server libc rounds buffer) start
  unfolding simple_echo_server
  simple_echo_server-Serving rounds buffer =
      search (serving_rules, serve_endless, accept_loop-Serving, tt) depth 60 fits 20000

-- Against any lawful history of replies `simple_echo_server` binds only its new socket, listens only
-- after `bind` succeeded, accepts only on the listening socket, and returns only if it never got as
-- far as listening.
pub simple_echo_server-serves :
    (libc : Libc) (limit : ℕ) (rounds : ℕ) (buffer : List ℕ) (rs : List Reply)
    → AllLawful limit (run (simple_echo_server libc rounds buffer) rs).events
    → Obeys serving start (λ _ s. NeverListened s) (run (simple_echo_server libc rounds buffer) rs)
simple_echo_server-serves libc limit rounds buffer rs l =
    Safe-Obeys serving (simple_echo_server-Serving libc rounds buffer) rs l
