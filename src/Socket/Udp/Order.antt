-- ===== src/Socket/Udp/Order.antt =====
-- The order of the calls of server and client.
use linux_system_programming.Posix.{AllLawful, run, Obeys, Safe-Obeys, Reply}
use linux_system_programming.Base.{ℕ, zero, suc, ℤ, ◌≡◌, List}
use linux_system_programming.Posix.{Libc, Safe}
use linux_system_programming.Spec.Serving.{start, bound, serving, NeverBound}
use linux_system_programming.Spec.Serving.Rules.{serving_rules, serve_endless}
use linux_system_programming.Base.{length, arith}
use linux_system_programming.Posix.{in_range-fill}
use linux_system_programming.Spec.Asking.{asking, Reported}
use linux_system_programming.Spec.Asking
use linux_system_programming.Spec.Asking.Rules.{asking_rules}
use linux_system_programming.Socket.Udp.{datagram_loop, udp_echo_server, udp_client}

module _ (libc : Libc) {limit : ℕ} where
  datagram_loop-Serving :
      (rounds : ℕ) (x : ℤ) (buffer : List ℕ)
      → Safe limit serving (λ _ _. ⊥) (datagram_loop libc rounds x buffer) (bound x)
  unfolding datagram_loop
  datagram_loop-Serving zero x buffer = search serving_rules
  datagram_loop-Serving (suc rounds) x buffer =
      search (serving_rules, datagram_loop-Serving rounds) depth 40 fits 20000

  udp_echo_server-Serving :
      (rounds : ℕ) (buffer : List ℕ)
      → Safe limit serving (λ _ s. NeverBound s) (udp_echo_server libc rounds buffer) start
  unfolding udp_echo_server
  udp_echo_server-Serving rounds buffer =
      search (serving_rules, serve_endless, datagram_loop-Serving, tt) depth 60 fits 20000

  udp_client-Asking :
      (host port_str message buffer : List ℕ)
      → length buffer ≡ 4096
      → Safe limit
          (asking message)
          Reported
          (udp_client libc host port_str message buffer)
          Asking.start
  unfolding udp_client
  udp_client-Asking host port_str message buffer h =
      search (asking_rules, in_range-fill buffer 4095 (omega arith)) depth 60 fits 20000

-- Against any lawful history of replies `udp_echo_server` binds only its new socket, receives only on
-- the socket once `bind` succeeded, and returns only if it never got an address.
pub udp_echo_server-serves :
    (libc : Libc) (limit : ℕ) (rounds : ℕ) (buffer : List ℕ) (rs : List Reply)
    → AllLawful limit (run (udp_echo_server libc rounds buffer) rs).events
    → Obeys serving start (λ _ s. NeverBound s) (run (udp_echo_server libc rounds buffer) rs)
udp_echo_server-serves libc limit rounds buffer rs l =
    Safe-Obeys serving (udp_echo_server-Serving libc rounds buffer) rs l

-- With its buffer of 4096 bytes and any lawful history of replies, `udp_client` sends only its message and
-- only on its new socket, receives only after the send succeeded, and returns 0 exactly if an answer was read, -1
-- otherwise.
pub udp_client-asks :
    (libc : Libc) (limit : ℕ) (host port_str message buffer : List ℕ) (rs : List Reply)
    → length buffer ≡ 4096
    → AllLawful limit (run (udp_client libc host port_str message buffer) rs).events
    → Obeys
        (asking message)
        Asking.start
        Reported
        (run (udp_client libc host port_str message buffer) rs)
udp_client-asks libc limit host port_str message buffer rs h l =
    Safe-Obeys (asking message) (udp_client-Asking libc host port_str message buffer h) rs l
