-- ===== src/Cpp/UdpServer/Fuel.antt =====
-- The rounds of UDPServer.
use linux_system_programming.Base.{ℕ, zero, suc, ℤ, List, length, ◌<◌, ◌≢◌}
use linux_system_programming.Posix.{
  Libc, Reply, run, cut, Lasts, Lasts-bind, Lasts-run, lasts_rules,
}
use linux_system_programming.Cpp.Socket
use linux_system_programming.Cpp.Socket.{Socket}
use linux_system_programming.Cpp.UdpServer.{
  udp_server_start, echo_datagram, echo_datagrams, udp_server_run,
}

module _ (libc : Libc) where
  echo_datagrams-Lasts :
      (rounds : ℕ) (s : Socket × List ℕ) → Lasts (echo_datagrams libc rounds s) rounds
  unfolding echo_datagrams echo_datagram Socket.recvfrom Socket.sendto
  echo_datagrams-Lasts zero s = search lasts_rules
  echo_datagrams-Lasts (suc rounds) s =
      search (lasts_rules, echo_datagrams-Lasts rounds) depth 40 fits 20000

  udp_server_run-Lasts :
      (rounds : ℕ) (buffer : List ℕ) (port : ℤ) (s : Socket)
      → Lasts (udp_server_run libc rounds buffer port s) rounds
  unfolding udp_server_run udp_server_start Socket.create Socket.set_reuse_addr Socket.bind
  udp_server_run-Lasts rounds buffer port s =
      search (lasts_rules, Lasts-bind, echo_datagrams-Lasts) depth 60 fits 20000

-- With more rounds than there are replies, a run of UDPServer is never cut short.
pub udp_server_run-lasts :
    (libc : Libc) (rounds : ℕ) (buffer : List ℕ) (port : ℤ) (s : Socket) (rs : List Reply)
    → length rs < rounds
    → (run (udp_server_run libc rounds buffer port s) rs).outcome ≢ cut
udp_server_run-lasts libc rounds buffer port s rs =
    Lasts-run (udp_server_run-Lasts libc rounds buffer port s) rs
