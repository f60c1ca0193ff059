-- ===== src/Socket/EchoServer/Fuel.antt =====
-- The rounds of simple_echo_server's loops.
use linux_system_programming.Posix.{Lasts-run, run, cut, Reply}
use linux_system_programming.Base.{length, ◌<◌, ◌≢◌}
use linux_system_programming.Base.{ℕ, zero, suc, ℤ, List}
use linux_system_programming.Posix.{Libc, Lasts, Lasts-bind, lasts_rules}
use linux_system_programming.Socket.EchoServer.{echo_loop, accept_loop, simple_echo_server}

echo_loop-Lasts : (rounds : ℕ) (x : ℤ) (buffer : List ℕ) → Lasts (echo_loop rounds x buffer) rounds
unfolding echo_loop
echo_loop-Lasts zero x buffer = search lasts_rules
echo_loop-Lasts (suc rounds) x buffer = search (lasts_rules, echo_loop-Lasts rounds) depth 20

module _ (libc : Libc) where
  accept_loop-Lasts :
      (rounds : ℕ) (x : ℤ) (buffer : List ℕ) → Lasts (accept_loop libc rounds x buffer) rounds
  unfolding accept_loop
  accept_loop-Lasts zero x buffer = search lasts_rules
  accept_loop-Lasts (suc rounds) x buffer =
      search (lasts_rules, Lasts-bind, accept_loop-Lasts rounds, echo_loop-Lasts) depth 40 fits
        20000

  simple_echo_server-Lasts :
      (rounds : ℕ) (buffer : List ℕ) → Lasts (simple_echo_server libc rounds buffer) rounds
  unfolding simple_echo_server
  simple_echo_server-Lasts rounds buffer =
      search (lasts_rules, Lasts-bind, accept_loop-Lasts) depth 60 fits 20000

-- With more rounds than there are replies, a run of `simple_echo_server` is never cut short.
pub simple_echo_server-enough :
    (libc : Libc) (rounds : ℕ) (buffer : List ℕ) (rs : List Reply)
    → length rs < rounds
    → (run (simple_echo_server libc rounds buffer) rs).outcome ≢ cut
simple_echo_server-enough libc rounds buffer rs =
    Lasts-run (simple_echo_server-Lasts libc rounds buffer) rs
