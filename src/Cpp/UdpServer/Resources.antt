-- ===== src/Cpp/UdpServer/Resources.antt =====
-- The descriptor of `UDPServer`.
use linux_system_programming.Base.{ℕ, zero, suc, ℤ, fails, false, ◌≡◌, List, [], ◌∷◌}
use linux_system_programming.Posix.{Libc, Prog, ◌>>=◌}
use linux_system_programming.Spec.Resources.{fd, Holdings, holding}
use linux_system_programming.Spec.Resources.Rules.{Tidy}
use linux_system_programming.Spec.Resources.Owners.{owned, owner_rules, res_bind_holding}
use linux_system_programming.Cpp.Method.{Tried}
use linux_system_programming.Cpp.Socket.{Socket, no_socket}
use linux_system_programming.Cpp.UdpServer.{echo_datagrams, udp_server_run}

module _ (libc : Libc) {limit : ℕ} where
  echo_datagrams-Tidy :
      (rounds : ℕ) (s : Socket) (buffer : List ℕ)
      → fails s.fd ≡ false
      → Tidy 1 limit
          (λ r b. b ≡ holding (owned r.1.0.fd))
          (echo_datagrams libc rounds (s, buffer))
          (fd s.fd ∷ [])
  unfolding echo_datagrams
  echo_datagrams-Tidy zero s buffer e = search owner_rules
  echo_datagrams-Tidy (suc rounds) s buffer e =
      search (owner_rules, echo_datagrams-Tidy rounds) depth 60 fits 20000

  -- the loop where `run` has it
  echo_datagrams-then :
      {A : Type 0} {Q : A → Holdings → Type 0} (rounds : ℕ) (s : Socket) (buffer : List ℕ)
      (f : Tried (Unit {0}) × (Socket × List ℕ) → Prog A)
      → fails s.fd ≡ false
      → ((r : Tried (Unit {0}) × (Socket × List ℕ)) → Tidy 1 limit Q (f r) (owned r.1.0.fd))
      → Tidy 1 limit Q (echo_datagrams libc rounds (s, buffer) >>= f) (fd s.fd ∷ [])
  echo_datagrams-then rounds s buffer f e h =
      res_bind_holding (λ r. owned r.1.0.fd) _ f (echo_datagrams-Tidy rounds s buffer e) h

  pub udp_server_run-Tidy :
      (rounds : ℕ) (buffer : List ℕ) (port : ℤ)
      → Tidy 1 limit
          (λ r b. b ≡ holding (owned r.1.fd))
          (udp_server_run libc rounds buffer port no_socket)
          []
  unfolding udp_server_run
  udp_server_run-Tidy rounds buffer port =
      search (owner_rules, echo_datagrams-then rounds) depth 60 fits 20000
