-- ===== src/Cpp/TcpServer/Resources.antt =====
-- The descriptors of `TCPServer` and its threads.
use linux_system_programming.Base.{
  refl, ℕ, zero, suc, ℤ, fails, false, true, inl, inr, Bool-cases, ◌≡◌, List, [], ◌∷◌,
}
use linux_system_programming.Posix.{Reply, run, AllLawful, Obeys, Libc, SockAddr, lit, text}
use linux_system_programming.Spec.Resources.{resources, Resource, fd, holding}
use linux_system_programming.Spec.Resources.Rules.{Tidy-Obeys, Tidy, res_bind, res_print, res_ret}
use linux_system_programming.Spec.Resources.Owners.{owned, owner_rules, res_bind_holding, res_assoc}
use linux_system_programming.Cpp.Method.{
  Tried, Method, try_catch, try_catch_all, cout, cerr, what, Exception,
}
use linux_system_programming.Cpp.Scopes.{
  Keeps, bind-Keeps, try_catch-Keeps, try_catch_all-Keeps, destroy-Tidy,
}
use linux_system_programming.Cpp.Socket.{Socket}
use linux_system_programming.Cpp.TcpServer.{
  TcpServer, tcp_server, join_all, destroy_tcp_server, accept_one, serve, tcp_server_run,
  echo_client, handle_client_impl, handle_client,
}

-- the object's listening socket, after a method
abbrev pub listening : {A : Type 0} → Tried A × TcpServer → List Resource
listening r = owned r.1.listen_socket.fd

module _ {most limit : ℕ} where
  join_all-Tidy :
      (threads : List ℕ) (l : List Resource)
      → Tidy most limit (λ _ b. b ≡ holding l) (join_all threads) l
  unfolding join_all
  join_all-Tidy [] l = search owner_rules
  join_all-Tidy (t ∷ threads) l = search (owner_rules, join_all-Tidy threads)

  destroy_tcp_server-Tidy_open :
      (s : TcpServer)
      → fails s.listen_socket.fd ≡ false
      → Tidy most limit (λ _ b. b ≡ holding []) (destroy_tcp_server s) (fd s.listen_socket.fd ∷ [])
  unfolding destroy_tcp_server
  destroy_tcp_server-Tidy_open s e =
      search (owner_rules, res_assoc, res_bind, join_all-Tidy) depth 40 fits 20000

  destroy_tcp_server-Tidy_closed :
      (s : TcpServer)
      → fails s.listen_socket.fd ≡ true
      → Tidy most limit (λ _ b. b ≡ holding []) (destroy_tcp_server s) []
  unfolding destroy_tcp_server
  destroy_tcp_server-Tidy_closed s e =
      search (owner_rules, res_assoc, res_bind, join_all-Tidy) depth 40 fits 20000

  pub destroy_tcp_server-Tidy :
      (s : TcpServer)
      → Tidy most limit (λ _ b. b ≡ holding []) (destroy_tcp_server s) (owned s.listen_socket.fd)
  destroy_tcp_server-Tidy s = elim (Bool-cases (fails s.listen_socket.fd)) [
    | inl e ↦ rw (e, owned) (destroy_tcp_server-Tidy_closed s e)
    | inr e ↦ rw (e, owned) (destroy_tcp_server-Tidy_open s e)
  ]

module _ (libc : Libc) {limit : ℕ} where
  serve-Tidy :
      (rounds : ℕ) (s : TcpServer)
      → fails s.listen_socket.fd ≡ false
      → Tidy 2 limit
          (λ r b. b ≡ holding (owned r.1.listen_socket.fd))
          (serve libc rounds s)
          (fd s.listen_socket.fd ∷ [])
  unfolding serve accept_one
  serve-Tidy zero s e = search owner_rules
  serve-Tidy (suc rounds) s e = search (owner_rules, serve-Tidy rounds) depth 60 fits 20000

  pub tcp_server_run-Tidy :
      (rounds : ℕ) (port : ℤ)
      → Tidy 2 limit
          (λ r b. b ≡ holding (listening r))
          (tcp_server_run libc rounds (tcp_server port))
          []
  unfolding tcp_server_run
  tcp_server_run-Tidy rounds port = search (owner_rules, serve-Tidy) depth 60 fits 20000

  -- The thread's loop over the client's reads, whether it ends or throws.
  echo_client-Tidy :
      (rounds : ℕ) (buffer : List ℕ) (addr : SockAddr) (client : Socket)
      → fails client.fd ≡ false
      → Keeps 1 limit
          (λ s. owned s.fd)
          (echo_client libc rounds buffer addr client)
          (fd client.fd ∷ [])
  unfolding echo_client
  echo_client-Tidy zero buffer addr client e = search owner_rules
  echo_client-Tidy (suc rounds) buffer addr client e =
      search (owner_rules, echo_client-Tidy rounds) depth 60 fits 20000

  handle_client_impl-Tidy :
      (rounds : ℕ) (buffer : List ℕ) (addr : SockAddr) (client : Socket)
      → fails client.fd ≡ false
      → Keeps 1 limit
          (λ s. owned s.fd)
          (handle_client_impl libc rounds buffer addr client)
          (fd client.fd ∷ [])
  unfolding handle_client_impl
  handle_client_impl-Tidy rounds buffer addr client e =
      let h : Exception → Method Socket (Unit {0}) =
        (λ e. cerr (lit "Client error: " ∷ what libc e)) in
      bind-Keeps (λ s. owned s.fd) (try_catch (echo_client libc rounds buffer addr) h)
        (λ _. cout (lit "Client disconnected: " ∷ text (libc.inet_ntop addr.host) ∷ [])) client _
        (try_catch-Keeps (λ s. owned s.fd) (echo_client libc rounds buffer addr) h client _
          (echo_client-Tidy rounds buffer addr client e) (λ e s. res_print (res_ret refl)))
        (λ a s. res_print (res_ret refl))

  -- Any override of `handle_client_impl` that leaves the client with its owner.
  pub handle_client-Tidy :
      (impl : SockAddr → Method Socket (Unit {0})) (client : Socket) (addr : SockAddr)
      → Keeps 1 limit (λ s. owned s.fd) (impl addr client) (fd client.fd ∷ [])
      → Tidy 1 limit
          (λ _ b. b ≡ holding [])
          (handle_client libc impl client addr)
          (fd client.fd ∷ [])
  unfolding handle_client
  handle_client-Tidy impl client addr h =
      let g : Exception → Method Socket (Unit {0}) =
        (λ e. cerr (lit "Unhandled exception: " ∷ what libc e)) in
      res_bind_holding (λ r. owned r.1.fd) (try_catch_all (impl addr) g client) _
        (try_catch_all-Keeps (λ s. owned s.fd) (impl addr) g client _ h
          (λ e s. res_print (res_ret refl)))
        (λ r. destroy-Tidy r.1)

-- With any lawful history of replies, a thread of the C++ echo server that was handed an open client
-- makes calls only on that client, and closes it exactly once where it ends, also when a read or a
-- send threw.
pub handle_client-closes :
    (libc : Libc) (limit rounds : ℕ) (buffer : List ℕ) (addr : SockAddr) (client : Socket)
    (rs : List Reply)
    → fails client.fd ≡ false
    → AllLawful limit
        (run (handle_client libc (handle_client_impl libc rounds buffer) client addr) rs).events
    → Obeys
        (resources 1)
        (holding (fd client.fd ∷ []))
        (λ _ b. b ≡ holding [])
        (run (handle_client libc (handle_client_impl libc rounds buffer) client addr) rs)
handle_client-closes libc limit rounds buffer addr client rs e l =
    Tidy-Obeys
      (handle_client-Tidy libc (handle_client_impl libc rounds buffer) client addr
        (handle_client_impl-Tidy libc rounds buffer addr client e))
      rs l
