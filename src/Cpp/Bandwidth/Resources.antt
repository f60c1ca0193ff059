-- ===== src/Cpp/Bandwidth/Resources.antt =====
-- The descriptors of the C++ bandwidth test.
use linux_system_programming.Base.{ℕ, zero, suc, ℤ, fails, false, ◌≡◌, refl, List, [], ◌∷◌}
use linux_system_programming.Posix.{Reply, run, AllLawful, Obeys, zeros, ret, Libc, SockAddr}
use linux_system_programming.Spec.Resources.{resources, Resource, fd, holding}
use linux_system_programming.Spec.Resources.Rules.{
  Tidy-Obeys, Tidy, res_ask, res_print, res_ret, res_if,
}
use linux_system_programming.Spec.Resources.Owners.{owned, owner_rules, res_else, res_socket_tested}
use linux_system_programming.Cpp.Method.{pure, try_catch, scoped}
use linux_system_programming.Cpp.Scopes.{Keeps, bind-Keeps, try_catch-Keeps, scope_plain-Keeps}
use linux_system_programming.Cpp.Socket.{Socket, no_socket}
use linux_system_programming.Cpp.TcpServer.{handle_client}
use linux_system_programming.Cpp.TcpServer.Resources.{handle_client-Tidy}
use linux_system_programming.Cpp.Bandwidth.{
  measure, report, send_for, receive_chunks, measure_client, send_chunks, bandwidth_client,
}

module _ {limit : ℕ} where
  receive_chunks-Tidy :
      (rounds : ℕ) (start : ℤ) (s : Socket) (bytes : ℕ)
      → fails s.fd ≡ false
      → Keeps 1 limit (λ s. owned s.0.fd) (receive_chunks rounds start (s, bytes)) (fd s.fd ∷ [])
  unfolding receive_chunks
  receive_chunks-Tidy zero start s bytes e = search owner_rules
  receive_chunks-Tidy (suc rounds) start s bytes e =
      search (owner_rules, receive_chunks-Tidy rounds) depth 60 fits 20000

  report-Keeps :
      (start : ℤ) (s : Socket × ℕ)
      → Keeps 1 limit (λ s. owned s.0.fd) (report start s) (owned s.0.fd)
  unfolding report
  report-Keeps start s = search (res_ask, res_if, res_print, res_ret)

  pub measure_client-Tidy :
      (rounds : ℕ) (addr : SockAddr) (client : Socket)
      → fails client.fd ≡ false
      → Keeps 1 limit (λ s. owned s.fd) (measure_client rounds addr client) (fd client.fd ∷ [])
  unfolding measure_client
  measure_client-Tidy rounds addr client e =
      let held : Socket × ℕ → List Resource = (λ s. owned s.0.fd) in
      scope_plain-Keeps (λ s. owned s.fd) 0 (measure rounds) client _
        (res_ask λ r.
          bind-Keeps held (try_catch (receive_chunks rounds r.value) (λ e. pure tt))
            (λ _. report r.value) (client, 0) _
            (try_catch-Keeps held (receive_chunks rounds r.value) (λ e. pure tt) (client, 0) _
              (receive_chunks-Tidy rounds r.value client 0 e) (λ e s. res_ret refl))
            (λ a s. report-Keeps r.value s))

  send_chunks-Tidy :
      (libc : Libc) (rounds : ℕ) (buffer : List ℕ) (duration start : ℤ) (s : Socket) (bytes : ℕ)
      → fails s.fd ≡ false
      → Tidy 1 limit
          (λ r b. b ≡ holding (owned r.1.0.fd))
          (send_chunks libc rounds buffer duration start (s, bytes))
          (fd s.fd ∷ [])
  unfolding send_chunks
  send_chunks-Tidy libc zero buffer duration start s bytes e = search owner_rules
  send_chunks-Tidy libc (suc rounds) buffer duration start s bytes e =
      search (owner_rules, send_chunks-Tidy libc rounds) depth 60 fits 20000

  send_for-Tidy :
      (libc : Libc) (rounds : ℕ) (duration : ℤ) (s : Socket)
      → fails s.fd ≡ false
      → Keeps 1 limit
          (λ s. owned s.fd)
          (scoped 0 (λ _. ret tt) (send_for libc rounds duration) s)
          (fd s.fd ∷ [])
  send_for-Tidy libc rounds duration s e =
      scope_plain-Keeps (λ s. owned s.fd) 0 (send_for libc rounds duration) s _
        (res_ask λ r. res_print (
          bind-Keeps (λ (s : Socket × ℕ). owned s.0.fd)
            (send_chunks libc rounds (zeros 65536) duration r.value) (λ _. report r.value) (s, 0) _
            (send_chunks-Tidy libc rounds (zeros 65536) duration r.value s 0 e)
            (λ a s. report-Keeps r.value s)))

  pub bandwidth_client-Tidy :
      (libc : Libc) (rounds : ℕ) (host : List ℕ) (port duration : ℤ)
      → Keeps 1 limit
          (λ s. owned s.fd)
          (bandwidth_client libc rounds host port duration no_socket)
          []
  unfolding bandwidth_client
  bandwidth_client-Tidy libc rounds host port duration = res_print (
      res_print (
        res_else refl (
          res_socket_tested refl (λ r e. search owner_rules depth 30)
            (λ r e. search (owner_rules, send_for-Tidy libc rounds duration) depth 60 fits 20000))))

-- With any lawful history of replies, a thread of the C++ bandwidth server that was handed an open
-- client makes calls only on that client, and closes it exactly once where it ends, also when a read
-- threw.
pub measured_client-closes :
    (libc : Libc) (limit rounds : ℕ) (addr : SockAddr) (client : Socket) (rs : List Reply)
    → fails client.fd ≡ false
    → AllLawful limit (run (handle_client libc (measure_client rounds) client addr) rs).events
    → Obeys
        (resources 1)
        (holding (fd client.fd ∷ []))
        (λ _ b. b ≡ holding [])
        (run (handle_client libc (measure_client rounds) client addr) rs)
measured_client-closes libc limit rounds addr client rs e l =
    Tidy-Obeys
      (handle_client-Tidy libc (measure_client rounds) client addr
        (measure_client-Tidy rounds addr client e))
      rs l
