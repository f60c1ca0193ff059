-- ===== src/Socket/EchoServer/Echo.antt =====
-- simple_echo_server against the promise of an echo.
use linux_system_programming.Posix.{AllLawful, run, Obeys, Safe-Obeys, Reply}
use linux_system_programming.Base.{ℕ, zero, suc, ℤ, ◌≡◌, List}
use linux_system_programming.Posix.{Libc, Safe}
use linux_system_programming.Spec.Echo.{echo, settled}
use linux_system_programming.Spec.Echo.Rules.{echo_rules, echo_bind}
use linux_system_programming.Socket.EchoServer.{echo_loop, accept_loop, simple_echo_server}

module _ {limit : ℕ} where
  echo_loop-Echo :
      (rounds : ℕ) (x : ℤ) (buffer : List ℕ)
      → Safe limit echo (λ _ d. d ≡ settled) (echo_loop rounds x buffer) settled
  unfolding echo_loop
  echo_loop-Echo zero x buffer = search echo_rules
  echo_loop-Echo (suc rounds) x buffer = search (echo_rules, echo_loop-Echo rounds) depth 20

module _ (libc : Libc) {limit : ℕ} where
  accept_loop-Echo :
      (rounds : ℕ) (x : ℤ) (buffer : List ℕ)
      → Safe limit echo (λ _ d. d ≡ settled) (accept_loop libc rounds x buffer) settled
  unfolding accept_loop
  accept_loop-Echo zero x buffer = search echo_rules
  accept_loop-Echo (suc rounds) x buffer =
      search (echo_rules, echo_bind, accept_loop-Echo rounds, echo_loop-Echo) depth 40 fits 20000

  simple_echo_server-Echo :
      (rounds : ℕ) (buffer : List ℕ)
      → Safe limit echo (λ _ d. d ≡ settled) (simple_echo_server libc rounds buffer) settled
  unfolding simple_echo_server
  simple_echo_server-Echo rounds buffer =
      search (echo_rules, echo_bind, accept_loop-Echo) depth 40 fits 20000

-- Against any lawful history of replies, `simple_echo_server` answers each received chunk with a `send`
-- of just these bytes on the same connection before it receives, accepts or closes again, and it sends
-- nothing else.
pub simple_echo_server-echoes :
    (libc : Libc) (limit : ℕ) (rounds : ℕ) (buffer : List ℕ) (rs : List Reply)
    → AllLawful limit (run (simple_echo_server libc rounds buffer) rs).events
    → Obeys echo settled (λ _ d. d ≡ settled) (run (simple_echo_server libc rounds buffer) rs)
simple_echo_server-echoes libc limit rounds buffer rs l =
    Safe-Obeys echo (simple_echo_server-Echo libc rounds buffer) rs l
