-- ===== src/Socket/ThreadServer/Fuel.antt =====
-- The rounds of the loops of multithreaded_echo_server and handle_client.
use linux_system_programming.Posix.{Lasts-run, run, cut, Reply}
use linux_system_programming.Base.{length, ◌<◌, ◌≢◌}
use linux_system_programming.Base.{ℕ, zero, suc, ℤ, List}
use linux_system_programming.Posix.{Libc, Lasts, Lasts-bind, lasts_rules}
use linux_system_programming.Socket.ThreadServer.{
  ClientInfo, handle_loop, handle_client, serve_loop, multithreaded_echo_server,
}

handle_loop-Lasts :
    (rounds : ℕ) (x : ℤ) (buffer : List ℕ) → Lasts (handle_loop rounds x buffer) rounds
unfolding handle_loop
handle_loop-Lasts zero x buffer = search lasts_rules
handle_loop-Lasts (suc rounds) x buffer = search (lasts_rules, handle_loop-Lasts rounds) depth 20

module _ (libc : Libc) where
  handle_client-Lasts :
      (rounds : ℕ) (arg : ℤ) (info : ClientInfo) (buffer : List ℕ)
      → Lasts (handle_client libc rounds arg info buffer) rounds
  unfolding handle_client
  handle_client-Lasts rounds arg info buffer =
      search (lasts_rules, Lasts-bind, handle_loop-Lasts) depth 20 fits 20000

  serve_loop-Lasts : (rounds : ℕ) (x : ℤ) → Lasts (serve_loop libc rounds x) rounds
  unfolding serve_loop
  serve_loop-Lasts zero x = search lasts_rules
  serve_loop-Lasts (suc rounds) x =
      search (lasts_rules, serve_loop-Lasts rounds) depth 40 fits 20000

  multithreaded_echo_server-Lasts :
      (rounds : ℕ) → Lasts (multithreaded_echo_server libc rounds) rounds
  unfolding multithreaded_echo_server
  multithreaded_echo_server-Lasts rounds =
      search (lasts_rules, Lasts-bind, serve_loop-Lasts) depth 60 fits 20000

-- With more rounds than there are replies, a run of `multithreaded_echo_server` is never cut short.
pub multithreaded_echo_server-enough :
    (libc : Libc) (rounds : ℕ) (rs : List Reply)
    → length rs < rounds
    → (run (multithreaded_echo_server libc rounds) rs).outcome ≢ cut
multithreaded_echo_server-enough libc rounds rs =
    Lasts-run (multithreaded_echo_server-Lasts libc rounds) rs

-- With more rounds than there are replies, a run of `handle_client` is never cut short.
pub handle_client-enough :
    (libc : Libc) (rounds : ℕ) (arg : ℤ) (info : ClientInfo) (buffer : List ℕ) (rs : List Reply)
    → length rs < rounds
    → (run (handle_client libc rounds arg info buffer) rs).outcome ≢ cut
handle_client-enough libc rounds arg info buffer rs =
    Lasts-run (handle_client-Lasts libc rounds arg info buffer) rs
