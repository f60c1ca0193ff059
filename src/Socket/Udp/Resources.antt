-- ===== src/Socket/Udp/Resources.antt =====
-- The UDP programs' descriptors and buffers.
use linux_system_programming.Base.{ℕ, zero, suc, ℤ, ◌≡◌, List, [], ◌∷◌, length, arith}
use linux_system_programming.Posix.{Libc, Reply, in_range-fill, AllLawful, run, Obeys}
use linux_system_programming.Spec.Resources.{fd, holding, resources}
use linux_system_programming.Spec.Resources.Rules.{Tidy, resource_rules, res_bind, Tidy-Obeys}
use linux_system_programming.Socket.Udp.{datagram_loop, udp_echo_server, udp_client}

module _ (libc : Libc) {limit : ℕ} where
  datagram_loop-Tidy :
      (rounds : ℕ) (x : ℤ) (buffer : List ℕ)
      → Tidy 1 limit
          (λ _ b. b ≡ holding (fd x ∷ []))
          (datagram_loop libc rounds x buffer)
          (fd x ∷ [])
  unfolding datagram_loop
  datagram_loop-Tidy zero x buffer = search resource_rules
  datagram_loop-Tidy (suc rounds) x buffer =
      search (resource_rules, datagram_loop-Tidy rounds) depth 40

  udp_echo_server-Tidy :
      (rounds : ℕ) (buffer : List ℕ)
      → Tidy 1 limit (λ _ b. b ≡ holding []) (udp_echo_server libc rounds buffer) []
  unfolding udp_echo_server
  udp_echo_server-Tidy rounds buffer =
      search (resource_rules, res_bind, datagram_loop-Tidy) depth 60 fits 20000

  udp_client-Tidy :
      (host port_str message buffer : List ℕ)
      → length buffer ≡ 4096
      → Tidy 1 limit (λ _ b. b ≡ holding []) (udp_client libc host port_str message buffer) []
  unfolding udp_client
  udp_client-Tidy host port_str message buffer h =
      search (resource_rules, in_range-fill buffer 4095 (omega arith)) depth 60 fits 20000

-- Against any lawful history of replies `udp_echo_server` names only its own socket, opens no second
-- one, does not fault, and where it returns the socket is closed.
pub udp_echo_server-releases :
    (libc : Libc) (limit : ℕ) (rounds : ℕ) (buffer : List ℕ) (rs : List Reply)
    → AllLawful limit (run (udp_echo_server libc rounds buffer) rs).events
    → Obeys
        (resources 1)
        (holding [])
        (λ _ b. b ≡ holding [])
        (run (udp_echo_server libc rounds buffer) rs)
udp_echo_server-releases libc limit rounds buffer rs l =
    Tidy-Obeys (udp_echo_server-Tidy libc rounds buffer) rs l

-- With its buffer of 4096 bytes and any lawful history of replies, `udp_client` names only its own open
-- socket, closes it exactly once on every path on which it returns, and does not write outside the
-- buffer, whatever the length of the answer.
pub udp_client-releases :
    (libc : Libc) (limit : ℕ) (host port_str message buffer : List ℕ) (rs : List Reply)
    → length buffer ≡ 4096
    → AllLawful limit (run (udp_client libc host port_str message buffer) rs).events
    → Obeys
        (resources 1)
        (holding [])
        (λ _ b. b ≡ holding [])
        (run (udp_client libc host port_str message buffer) rs)
udp_client-releases libc limit host port_str message buffer rs h l =
    Tidy-Obeys (udp_client-Tidy libc host port_str message buffer h) rs l
