-- ===== src/Cpp/SelectEchoServer/Rounds.antt =====
-- A round of `SelectEchoServer::run`, and the whole of it.
use linux_system_programming.Base.{
  arith, ℕ, zero, suc, ℤ, fails, ltb, true, false, ◌≡◌, refl, ◌∙◌, ◌≤◌, List, [], ◌∷◌, ◌++◌, length,
  length-append,
}
use linux_system_programming.Posix.{Prog, Libc, fits_set, fits_set-new}
use linux_system_programming.Spec.Resources.{Resource, fd, holding}
use linux_system_programming.Spec.Resources.Rules.{
  Tidy, res_ret, res_spent, res_print, res_if, res_check, res_ask, held_here,
}
use linux_system_programming.Spec.Resources.Owners.{res_else, res_destroy}
use linux_system_programming.Spec.Resources.Places.{holding_last, res_bind_known, res_accept_known}
use linux_system_programming.Cpp.Method.{Tried, ok, threw, Method, resume, ◌>>=◌}
use linux_system_programming.Cpp.Socket.{Socket}
use linux_system_programming.Cpp.SelectEchoServer.{
  SelectEchoServer, accept_client, select_rounds, each_client, on_clients,
}
use linux_system_programming.Cpp.SelectEchoServer.Clients.{
  owned_all, owned_all-push, length-owned_all, Fits, AllFit, AllFit-append, all_fit-mark,
}
use linux_system_programming.Cpp.SelectEchoServer.Resources.{each_client-Tidy, Kept}

-- what a server that listens holds
abbrev pub held : SelectEchoServer → List Resource
held s = fd s.listen_socket.fd ∷ owned_all s.clients

module _ (libc : Libc) where
  -- The server listens, its vector has at most FD_SETSIZE clients, and all descriptors fit a set.
  pub record IsServing (s : SelectEchoServer) : Type 0 where
    pub open_socket : fails s.listen_socket.fd ≡ false
    pub fits : fits_set libc.fd_setsize s.listen_socket.fd ≡ true
    pub all_fitting : AllFit libc.fd_setsize s.clients
    pub bounded : length s.clients ≤ libc.fd_setsize

  room :
      (s : SelectEchoServer)
      → IsServing s
      → ltb (length (held s)) (suc (suc libc.fd_setsize)) ≡ true
  room s h = ground (arith, length-owned_all s.clients, h.bounded)

  push-IsServing :
      (s : SelectEchoServer) (c : Socket)
      → IsServing s
      → Fits libc.fd_setsize c
      → ltb (length s.clients) libc.fd_setsize ≡ true
      → IsServing (record s { clients = s.clients ++ c ∷ [] })
  push-IsServing s c h f lt = record {
    open_socket = h.open_socket;
    fits = h.fits;
    all_fitting = AllFit-append libc.fd_setsize s.clients (c ∷ []) h.all_fitting (f, tt);
    bounded = ground (arith, length-append s.clients (c ∷ []), lt);
  }

  holding-push :
      (s : SelectEchoServer) (c : Socket)
      → fails c.fd ≡ false
      → holding (fd c.fd ∷ held s) ≡ holding (held (record s { clients = s.clients ++ c ∷ [] }))
  holding-push s c e = holding_last (fd c.fd) (held s) ∙ rw (owned_all-push s.clients c e) refl

  module _ {limit : ℕ} (le : limit ≤ libc.fd_setsize) where
    accept_client-Tidy :
        (s : SelectEchoServer)
        → IsServing s
        → Tidy
            (suc (suc libc.fd_setsize))
            limit
            (λ r b. (b ≡ holding (held r.1)) × IsServing r.1)
            (accept_client libc s)
            (held s)
    unfolding accept_client
    accept_client-Tidy s h =
        res_accept_known (room s h) held_here (λ r e. res_print (res_ret (refl, h)))
          (λ r l e.
            let c : Socket = record { fd = r.value } in
            res_print (
              res_if
                (λ lt. res_else refl (
                  res_ret (
                    holding-push s c e,
                    push-IsServing s c h (λ _. fits_set-new libc.fd_setsize r.value le l.0 l.1 e)
                        lt,
                  )))
                (λ _. res_destroy e (λ _. res_ret (refl, h)))))

    -- what each part of a round keeps
    abbrev Serves : {A : Type 0} → Prog (Tried A × SelectEchoServer) → SelectEchoServer → Type 0
    Serves p s =
        Tidy (suc (suc libc.fd_setsize)) limit (λ r b. (b ≡ holding (held r.1)) × IsServing r.1) p
          (held s)

    then-Serves :
        {A B : Type 0} (m : Method SelectEchoServer A) (f : A → Method SelectEchoServer B)
        (s : SelectEchoServer)
        → Serves (m s) s
        → ((a : A) (s' : SelectEchoServer) → IsServing s' → Serves (f a s') s')
        → Serves ((m >>= f) s) s
    then-Serves m f s h k =
        res_bind_known (λ r. held r.1) (λ r. IsServing r.1) (m s) _ h (cases f k)
      where
        cases :
            {A B : Type 0} (f : A → Method SelectEchoServer B)
            → ((a : A) (s' : SelectEchoServer) → IsServing s' → Serves (f a s') s')
            → (r : Tried A × SelectEchoServer) → IsServing r.1
            → Serves (resume f r) r.1
        cases f k (ok a, s') h = k a s' h
        cases f k (threw e, s') h = res_ret (refl, h)

    clients-Serves :
        (buffer : List ℕ) (ready : List ℤ) (s : SelectEchoServer)
        → IsServing s
        → Serves (on_clients libc (each_client libc buffer ready 0) s) s
    clients-Serves buffer ready s h =
        res_bind_known (λ r. fd s.listen_socket.fd ∷ owned_all r.1) (Kept libc s.clients)
          (each_client libc buffer ready 0 s.clients) _
          (each_client-Tidy libc buffer ready (fd s.listen_socket.fd ∷ []) 0 s.clients
            h.all_fitting)
          (λ r k. res_ret (
            refl,
            record {
              open_socket = h.open_socket;
              fits = h.fits;
              all_fitting = k.0;
              bounded = rw k.1 h.bounded;
            },
          ))

    pub select_rounds-Serves :
        (rounds : ℕ) (buffer : List ℕ) (s : SelectEchoServer)
        → IsServing s
        → Serves (select_rounds libc rounds buffer s) s
    unfolding select_rounds
    select_rounds-Serves zero buffer s h = res_spent
    select_rounds-Serves (suc rounds) buffer s h =
        res_check
          (all_fit-mark libc.fd_setsize s.clients (s.listen_socket.fd ∷ []) s.listen_socket.fd
            h.all_fitting (rw (h.fits) refl))
          (res_ask λ r.
            let turns : Method SelectEchoServer (Unit {0}) =
              on_clients libc (each_client libc buffer r.ready 0) in
            let after : (s' : SelectEchoServer)
                → IsServing s'
                → Serves ((turns >>= λ _. select_rounds libc rounds buffer) s') s' =
              (λ s' h'.
                then-Serves turns (λ _. select_rounds libc rounds buffer) s'
                  (clients-Serves buffer r.ready s' h')
                  (λ _. select_rounds-Serves rounds buffer)) in
            res_if (λ _. res_ret (refl, h))
              (λ _.
                res_if (λ _. select_rounds-Serves rounds buffer s h)
                  (λ _.
                    res_if
                      (λ _.
                        then-Serves (accept_client libc)
                          (λ _. turns >>= λ _. select_rounds libc rounds buffer) s
                          (accept_client-Tidy s h) (λ _. after))
                      (λ _. after s h))))
