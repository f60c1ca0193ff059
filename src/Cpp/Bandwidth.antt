-- ===== src/Cpp/Bandwidth.antt =====
-- The bandwidth test of the C++ program.
pub mod Resources
use linux_system_programming.Base.{
  ℕ, zero, suc, ℤ, pos, negsuc, minus_one, positive, not, false, ltb_ℤ, ◌-ℤ◌, sub_ℕ, ◌+◌, ◌*◌, ◌/◌,
  ◌%◌, ◌^◌, List, [], ◌∷◌,
}
use linux_system_programming.Posix.{Libc, SockAddr, lit, num, rate, ask, clock, zeros, ret}
use linux_system_programming.Socket.Bandwidth.{count}
use linux_system_programming.Cpp.Method.{
  what, Method, pure, ◌>>=◌, ◌>>◌, if◌then◌else◌, sys, cout, cerr, get, modify, cut_short, scoped,
  outer, try_catch,
}
use linux_system_programming.Cpp.Socket
use linux_system_programming.Cpp.Socket.{Socket}
use linux_system_programming.Cpp.TcpClient.{tcp_client_connect, tcp_client_send_message}

abbrev second : ℕ
second = 10 ^ 9

-- `duration_cast<seconds>`, which cuts towards zero
abbrev seconds : ℤ → ℤ
seconds (pos n) = pos (n / second)
seconds (negsuc n) = sub_ℕ 0 (suc n / second)

-- The loop of `handle_client_impl`; the state is the client and `bytes_received`.
unfoldable pub receive_chunks : ℕ → ℤ → Method (Socket × ℕ) (Unit {0})
unfolding Socket.recv
receive_chunks zero start_time = cut_short
receive_chunks (suc rounds) start_time = do
  r ← outer (Socket.recv 65536)
  if not (positive r.value) then pure tt else do
    modify (λ s. (s.0, count s.1 r.value))
    now ← sys (ask clock)
    if ltb_ℤ (pos (10 * second)) (now.value -ℤ start_time)
        then pure tt
        else receive_chunks rounds start_time

-- the end of either side: the rate, if a second or more has passed
unfoldable pub report : ℤ → Method (Socket × ℕ) (Unit {0})
report start_time = do
  now ← sys (ask clock)
  let elapsed = seconds (now.value -ℤ start_time)
  s ← get
  if positive elapsed
      then cout (lit "Throughput: " ∷ rate s.1 elapsed ∷ lit " MB/s" ∷ [])
      else pure tt

-- `BandwidthServer::handle_client_impl`
abbrev pub measure : ℕ → Method (Socket × ℕ) (Unit {0})
measure rounds = do
  start_time ← sys (ask clock)
  try_catch (receive_chunks rounds start_time.value) (λ e. pure tt)
  report start_time.value

unfoldable pub measure_client : ℕ → SockAddr → Method Socket (Unit {0})
measure_client rounds addr = scoped 0 (λ _. ret tt) (measure rounds)

-- The loop of the client; the state is the client and `bytes_sent`.
unfoldable pub send_chunks : Libc → ℕ → List ℕ → ℤ → ℤ → Method (Socket × ℕ) (Unit {0})
unfolding tcp_client_send_message
send_chunks libc zero buffer duration_sec start_time = cut_short
send_chunks libc (suc rounds) buffer duration_sec start_time = do
  going ←
      try_catch
        (do
          outer (tcp_client_send_message buffer)
          modify (λ s. (s.0, (s.1 + 65536) % 2 ^ 64))
          now ← sys (ask clock)
          pure (ltb_ℤ (seconds (now.value -ℤ start_time)) duration_sec))
        (λ e. do cerr (lit "Send error: " ∷ what libc e); pure false)
  if going then send_chunks libc rounds buffer duration_sec start_time else pure tt

-- the client's loop between the clock's readings
abbrev pub send_for : Libc → ℕ → ℤ → Method (Socket × ℕ) (Unit {0})
send_for libc rounds duration_sec = do
  start_time ← sys (ask clock)
  cout (lit "Sending data for " ∷ num duration_sec ∷ lit " seconds..." ∷ [])
  send_chunks libc rounds (zeros 65536) duration_sec start_time.value
  report start_time.value

unfoldable pub bandwidth_client : Libc → ℕ → List ℕ → ℤ → ℤ → Method Socket (Unit {0})
unfolding tcp_client_connect
bandwidth_client libc rounds host port duration_sec = do
  cout (lit "Bandwidth test client" ∷ [])
  tcp_client_connect libc host port
  scoped 0 (λ _. ret tt) (send_for libc rounds duration_sec)
