-- ===== src/Socket/Udp/Fuel.antt =====
-- The rounds of udp_echo_server's loop.
use linux_system_programming.Posix.{Lasts-run, run, cut, Reply}
use linux_system_programming.Base.{length, ◌<◌, ◌≢◌}
use linux_system_programming.Base.{ℕ, zero, suc, ℤ, List}
use linux_system_programming.Posix.{Libc, Lasts, Lasts-bind, lasts_rules}
use linux_system_programming.Socket.Udp.{datagram_loop, udp_echo_server}

module _ (libc : Libc) where
  datagram_loop-Lasts :
      (rounds : ℕ) (x : ℤ) (buffer : List ℕ) → Lasts (datagram_loop libc rounds x buffer) rounds
  unfolding datagram_loop
  datagram_loop-Lasts zero x buffer = search lasts_rules
  datagram_loop-Lasts (suc rounds) x buffer =
      search (lasts_rules, datagram_loop-Lasts rounds) depth 20 fits 20000

  udp_echo_server-Lasts :
      (rounds : ℕ) (buffer : List ℕ) → Lasts (udp_echo_server libc rounds buffer) rounds
  unfolding udp_echo_server
  udp_echo_server-Lasts rounds buffer =
      search (lasts_rules, Lasts-bind, datagram_loop-Lasts) depth 60 fits 20000

-- With more rounds than there are replies, a run of `udp_echo_server` is never cut short.
pub udp_echo_server-enough :
    (libc : Libc) (rounds : ℕ) (buffer : List ℕ) (rs : List Reply)
    → length rs < rounds
    → (run (udp_echo_server libc rounds buffer) rs).outcome ≢ cut
udp_echo_server-enough libc rounds buffer rs =
    Lasts-run (udp_echo_server-Lasts libc rounds buffer) rs
