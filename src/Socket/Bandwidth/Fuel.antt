-- ===== src/Socket/Bandwidth/Fuel.antt =====
-- The rounds of the loops of bandwidth_test_server and bandwidth_test_client.
use linux_system_programming.Posix.{Lasts-run, run, cut, Reply}
use linux_system_programming.Base.{length, ◌<◌, ◌≢◌}
use linux_system_programming.Base.{ℕ, zero, suc, ℤ, List}
use linux_system_programming.Posix.{Libc, Prog, ◌>>=◌, Lasts, Lasts-bind, lasts_rules}
use linux_system_programming.Socket.Bandwidth.{
  receive_loop, send_loop, bandwidth_test_server, bandwidth_test_client,
}

receive_loop-Lasts :
    (rounds : ℕ) (x start : ℤ) (bytes : ℕ) → Lasts (receive_loop rounds x start bytes) rounds
unfolding receive_loop
receive_loop-Lasts zero x start bytes = search lasts_rules
receive_loop-Lasts (suc rounds) x start bytes =
    search (lasts_rules, receive_loop-Lasts rounds) depth 20

send_loop-Lasts :
    (rounds : ℕ) (x : ℤ) (buffer : List ℕ) (duration start : ℤ) (bytes : ℕ)
    → Lasts (send_loop rounds x buffer duration start bytes) rounds
unfolding send_loop
send_loop-Lasts zero x buffer duration start bytes = search lasts_rules
send_loop-Lasts (suc rounds) x buffer duration start bytes =
    search (lasts_rules, send_loop-Lasts rounds) depth 20

module _ {ℓ} {A : Type ℓ} where
  -- the loops where the callers have them
  receive_loop-Lasts_then :
      (rounds : ℕ) (x start : ℤ) (bytes : ℕ) (f : ℕ → Prog A)
      → ((n : ℕ) → Lasts (f n) rounds)
      → Lasts (receive_loop rounds x start bytes >>= f) rounds
  receive_loop-Lasts_then rounds x start bytes f h =
      Lasts-bind _ f (receive_loop-Lasts rounds x start bytes) h

  send_loop-Lasts_then :
      (rounds : ℕ) (x : ℤ) (buffer : List ℕ) (duration start : ℤ) (bytes : ℕ) (f : ℕ → Prog A)
      → ((n : ℕ) → Lasts (f n) rounds)
      → Lasts (send_loop rounds x buffer duration start bytes >>= f) rounds
  send_loop-Lasts_then rounds x buffer duration start bytes f h =
      Lasts-bind _ f (send_loop-Lasts rounds x buffer duration start bytes) h

module _ (libc : Libc) where
  bandwidth_test_server-Lasts :
      (rounds : ℕ) (port : ℤ) → Lasts (bandwidth_test_server libc rounds port) rounds
  unfolding bandwidth_test_server
  bandwidth_test_server-Lasts rounds port =
      search (lasts_rules, receive_loop-Lasts_then) depth 60 fits 20000

  bandwidth_test_client-Lasts :
      (rounds : ℕ) (host : List ℕ) (port duration : ℤ)
      → Lasts (bandwidth_test_client libc rounds host port duration) rounds
  unfolding bandwidth_test_client
  bandwidth_test_client-Lasts rounds host port duration =
      search (lasts_rules, send_loop-Lasts_then) depth 60 fits 20000

-- With more rounds than there are replies, a run of `bandwidth_test_server` is never cut short.
pub bandwidth_test_server-enough :
    (libc : Libc) (rounds : ℕ) (port : ℤ) (rs : List Reply)
    → length rs < rounds
    → (run (bandwidth_test_server libc rounds port) rs).outcome ≢ cut
bandwidth_test_server-enough libc rounds port rs =
    Lasts-run (bandwidth_test_server-Lasts libc rounds port) rs

-- With more rounds than there are replies, a run of `bandwidth_test_client` is never cut short.
pub bandwidth_test_client-enough :
    (libc : Libc) (rounds : ℕ) (host : List ℕ) (port duration : ℤ) (rs : List Reply)
    → length rs < rounds
    → (run (bandwidth_test_client libc rounds host port duration) rs).outcome ≢ cut
bandwidth_test_client-enough libc rounds host port duration rs =
    Lasts-run (bandwidth_test_client-Lasts libc rounds host port duration) rs
