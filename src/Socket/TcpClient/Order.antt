-- ===== src/Socket/TcpClient/Order.antt =====
-- The order of the client's calls, and its result.
use linux_system_programming.Posix.{AllLawful, run, Obeys, Safe-Obeys, Reply}
use linux_system_programming.Base.{ℕ, ◌≡◌, List, length, arith}
use linux_system_programming.Posix.{Libc, Safe, in_range-fill}
use linux_system_programming.Spec.Asking.{start, asking, Reported}
use linux_system_programming.Spec.Asking.Rules.{asking_rules}
use linux_system_programming.Socket.TcpClient.{simple_tcp_client}

module _ (libc : Libc) {limit : ℕ} where
  simple_tcp_client-Asking :
      (host port_str message buffer : List ℕ)
      → length buffer ≡ 4096
      → Safe limit
          (asking message)
          Reported
          (simple_tcp_client libc host port_str message buffer)
          start
  unfolding simple_tcp_client
  simple_tcp_client-Asking host port_str message buffer h =
      search (asking_rules, in_range-fill buffer 4095 (omega arith)) depth 60 fits 20000

-- With its buffer of 4096 bytes and any lawful history of replies, `simple_tcp_client` hands to `send`
-- only its message and only on the connected socket, receives only after the send succeeded, and
-- returns 0 exactly if that receive succeeded, be it with an answer or with 0 where the server closed
-- the connection, and -1 otherwise. How much of the message the send took plays no part.
pub simple_tcp_client-asks :
    (libc : Libc) (limit : ℕ) (host port_str message buffer : List ℕ) (rs : List Reply)
    → length buffer ≡ 4096
    → AllLawful limit (run (simple_tcp_client libc host port_str message buffer) rs).events
    → Obeys
        (asking message)
        start
        Reported
        (run (simple_tcp_client libc host port_str message buffer) rs)
simple_tcp_client-asks libc limit host port_str message buffer rs h l =
    Safe-Obeys (asking message) (simple_tcp_client-Asking libc host port_str message buffer h) rs l
