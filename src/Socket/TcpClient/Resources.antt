-- ===== src/Socket/TcpClient/Resources.antt =====
-- The TCP client's descriptor and buffer.
use linux_system_programming.Base.{ℕ, ◌≡◌, List, [], length, arith}
use linux_system_programming.Posix.{Libc, Reply, in_range-fill, AllLawful, run, Obeys}
use linux_system_programming.Spec.Resources.{holding, resources}
use linux_system_programming.Spec.Resources.Rules.{Tidy, resource_rules, Tidy-Obeys}
use linux_system_programming.Socket.TcpClient.{simple_tcp_client}

module _ (libc : Libc) {limit : ℕ} where
  simple_tcp_client-Tidy :
      (host port_str message buffer : List ℕ)
      → length buffer ≡ 4096
      → Tidy 1 limit
          (λ _ b. b ≡ holding [])
          (simple_tcp_client libc host port_str message buffer)
          []
  unfolding simple_tcp_client
  simple_tcp_client-Tidy host port_str message buffer h =
      search (resource_rules, in_range-fill buffer 4095 (omega arith)) depth 60 fits 20000

-- With its buffer of 4096 bytes and any lawful history of replies, `simple_tcp_client` names only its
-- own open socket, closes it exactly once on every path on which it returns, and does not write
-- outside the buffer.
pub simple_tcp_client-releases :
    (libc : Libc) (limit : ℕ) (host port_str message buffer : List ℕ) (rs : List Reply)
    → length buffer ≡ 4096
    → AllLawful limit (run (simple_tcp_client libc host port_str message buffer) rs).events
    → Obeys
        (resources 1)
        (holding [])
        (λ _ b. b ≡ holding [])
        (run (simple_tcp_client libc host port_str message buffer) rs)
simple_tcp_client-releases libc limit host port_str message buffer rs h l =
    Tidy-Obeys (simple_tcp_client-Tidy libc host port_str message buffer h) rs l
