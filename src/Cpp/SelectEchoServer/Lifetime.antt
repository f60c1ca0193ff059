-- ===== src/Cpp/SelectEchoServer/Lifetime.antt =====
-- `SelectEchoServer` from its construction to its destructor.
use linux_system_programming.Base.{
  arith, ℕ, suc, ℤ, fails, Bool-cases, inl, inr, lt→ltb, true, false, ◌≡◌, refl, ◌∙◌, ◌≤◌, List, [],
  ◌∷◌, ◌++◌, append-nil,
}
use linux_system_programming.Posix.{Libc, fits_set, fits_set-new}
use linux_system_programming.Spec.Resources.{Resource, fd, holding}
use linux_system_programming.Spec.Resources.Rules.{Tidy, res_ret, res_print, res_close}
use linux_system_programming.Spec.Resources.Owners.{
  owned, owner_rules, res_bind_holding, res_else, res_then,
}
use linux_system_programming.Spec.Resources.Places.{Has-middle, res_socket_known, res_weaken}
use linux_system_programming.Cpp.Scopes.{destroy-Tidy}
use linux_system_programming.Cpp.Socket.{Socket, destroy}
use linux_system_programming.Cpp.SelectEchoServer.{
  SelectEchoServer, select_echo_server, destroy_clients, destroy_select_echo_server, select_rounds,
  select_echo_server_run,
}
use linux_system_programming.Cpp.SelectEchoServer.Clients.{owned_all}
use linux_system_programming.Cpp.SelectEchoServer.Rounds.{select_rounds-Serves}

-- what the object holds
abbrev pub all_owned : SelectEchoServer → List Resource
all_owned s = owned s.listen_socket.fd ++ owned_all s.clients

module _ {most limit : ℕ} where
  destroy-Tidy_before :
      (before after : List Resource) (c : Socket)
      → Tidy most limit
          (λ _ b. b ≡ holding (before ++ after))
          (destroy c)
          (before ++ (owned c.fd ++ after))
  destroy-Tidy_before before after c = elim (Bool-cases (fails c.fd)) [
    | inl e ↦ rw (e, owned) (res_else refl (res_ret refl))
    | inr e ↦
        rw (e, owned) (res_then refl (res_close (Has-middle before after) (λ _. res_ret refl)))
  ]

  destroy_clients-Tidy :
      (before : List Resource) (cs : List Socket)
      → Tidy most limit (λ _ b. b ≡ holding before) (destroy_clients cs) (before ++ owned_all cs)
  unfolding destroy_clients
  destroy_clients-Tidy before [] = res_ret (rw (append-nil before) refl)
  destroy_clients-Tidy before (c ∷ cs) =
      res_bind_holding (λ _. before ++ owned_all cs) (destroy c) _
        (destroy-Tidy_before before (owned_all cs) c) (λ _. destroy_clients-Tidy before cs)

  pub destroy_select_echo_server-Tidy :
      (s : SelectEchoServer)
      → Tidy most limit (λ _ b. b ≡ holding []) (destroy_select_echo_server s) (all_owned s)
  unfolding destroy_select_echo_server
  destroy_select_echo_server-Tidy s =
      res_bind_holding (λ _. owned s.listen_socket.fd) (destroy_clients s.clients) _
        (destroy_clients-Tidy (owned s.listen_socket.fd) s.clients)
        (λ _. destroy-Tidy s.listen_socket)

-- an object without clients, with and without a descriptor
all_owned-closed :
    (x : Socket)
    → fails x.fd ≡ true
    → holding [] ≡ holding (all_owned (record { listen_socket = x; clients = [] }))
all_owned-closed x e = rw (e, owned) refl

all_owned-open :
    (x : Socket)
    → fails x.fd ≡ false
    → holding (fd x.fd ∷ []) ≡ holding (all_owned (record { listen_socket = x; clients = [] }))
all_owned-open x e = rw (e, owned) refl

module _ (libc : Libc) {limit : ℕ} (le : limit ≤ libc.fd_setsize) where
  listening-Tidy :
      (rounds : ℕ) (buffer : List ℕ) (s : Socket)
      → fails s.fd ≡ false
      → fits_set libc.fd_setsize s.fd ≡ true
      → Tidy
          (suc (suc libc.fd_setsize))
          limit
          (λ r b. b ≡ holding (all_owned r.1))
          (select_rounds libc rounds buffer (record { listen_socket = s; clients = [] }))
          (fd s.fd ∷ [])
  listening-Tidy rounds buffer s e f =
      res_weaken
        (select_rounds-Serves libc le rounds buffer (record { listen_socket = s; clients = [] })
          (record { open_socket = e; fits = f; all_fitting = tt; bounded = omega arith }))
        (λ r b k. k.0 ∙ rw (k.1.open_socket, owned) refl)

  pub select_echo_server_run-Tidy :
      (rounds : ℕ) (buffer : List ℕ) (port : ℤ)
      → Tidy
          (suc (suc libc.fd_setsize))
          limit
          (λ r b. b ≡ holding (all_owned r.1))
          (select_echo_server_run libc rounds buffer port select_echo_server)
          []
  unfolding select_echo_server_run
  select_echo_server_run-Tidy rounds buffer port = res_print (
      res_else refl (
        res_socket_known (lt→ltb 0 (suc (suc libc.fd_setsize)) (omega arith))
          (λ r e. res_ret (all_owned-closed (record { fd = r.value }) e))
          (λ r l e.
            search
              (
                owner_rules,
                all_owned-open,
                listening-Tidy rounds buffer,
                fits_set-new libc.fd_setsize r.value le l.0 l.1 e,
              )
              depth 60 fits 20000)))
