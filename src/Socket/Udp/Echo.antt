-- ===== src/Socket/Udp/Echo.antt =====
-- udp_echo_server against the promise of an echo.
use linux_system_programming.Posix.{AllLawful, run, Obeys, Safe-Obeys, Reply}
use linux_system_programming.Base.{ℕ, zero, suc, ℤ, ◌≡◌, List}
use linux_system_programming.Posix.{Libc, Safe}
use linux_system_programming.Spec.Echo.{echo, settled}
use linux_system_programming.Spec.Echo.Rules.{echo_rules, echo_bind}
use linux_system_programming.Socket.Udp.{datagram_loop, udp_echo_server}

module _ (libc : Libc) {limit : ℕ} where
  datagram_loop-Echo :
      (rounds : ℕ) (x : ℤ) (buffer : List ℕ)
      → Safe limit echo (λ _ d. d ≡ settled) (datagram_loop libc rounds x buffer) settled
  unfolding datagram_loop
  datagram_loop-Echo zero x buffer = search echo_rules
  datagram_loop-Echo (suc rounds) x buffer =
      search (echo_rules, datagram_loop-Echo rounds) depth 20 fits 20000

  udp_echo_server-Echo :
      (rounds : ℕ) (buffer : List ℕ)
      → Safe limit echo (λ _ d. d ≡ settled) (udp_echo_server libc rounds buffer) settled
  unfolding udp_echo_server
  udp_echo_server-Echo rounds buffer =
      search (echo_rules, echo_bind, datagram_loop-Echo) depth 40 fits 20000

-- Against any lawful history of replies, `udp_echo_server` answers each datagram, an empty one too, with
-- a `sendto` of the same bytes to the address it came from before it receives the next one, and it
-- sends nothing else.
pub udp_echo_server-echoes :
    (libc : Libc) (limit : ℕ) (rounds : ℕ) (buffer : List ℕ) (rs : List Reply)
    → AllLawful limit (run (udp_echo_server libc rounds buffer) rs).events
    → Obeys echo settled (λ _ d. d ≡ settled) (run (udp_echo_server libc rounds buffer) rs)
udp_echo_server-echoes libc limit rounds buffer rs l =
    Safe-Obeys echo (udp_echo_server-Echo libc rounds buffer) rs l
