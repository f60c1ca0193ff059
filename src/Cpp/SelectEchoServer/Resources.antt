-- ===== src/Cpp/SelectEchoServer/Resources.antt =====
-- The descriptors of `SelectEchoServer`: the listening socket's and the clients'.
use linux_system_programming.Base.{
  ℕ, suc, ℤ, fails, Bool-cases, inl, inr, true, false, ◌≡◌, refl, ap, List, [], ◌∷◌, ◌++◌, length,
  append_assoc,
}
use linux_system_programming.Posix.{and_then, call, close, ret, Libc}
use linux_system_programming.Spec.Resources.{Resource, fd, Holdings, holding}
use linux_system_programming.Spec.Resources.Rules.{
  Tidy, res_ret, res_print, res_if, res_check, res_close, res_on,
}
use linux_system_programming.Spec.Resources.Owners.{owned, res_else, res_then}
use linux_system_programming.Spec.Resources.Places.{Has-middle, Held-middle, res_bind_known}
use linux_system_programming.Cpp.Method.{Tried, ok, threw}
use linux_system_programming.Cpp.Socket.{Socket, no_socket}
use linux_system_programming.Cpp.SelectEchoServer.{client_turn, each_client, put_back}
use linux_system_programming.Cpp.SelectEchoServer.Clients.{owned_all, Fits, AllFit}

module _ (libc : Libc) where
  -- what is held around the client, and that it still fits a set
  abbrev Turned : List Resource → List Resource → Tried (Unit {0}) × Socket → Holdings → Type 0
  Turned before after r b =
      (b ≡ holding (before ++ (owned r.1.fd ++ after))) × Fits libc.fd_setsize r.1

  -- After the loop the vector is as long as before, and all its descriptors fit.
  abbrev pub Kept : List Socket → Tried (Unit {0}) × List Socket → Type 0
  Kept cs r = AllFit libc.fd_setsize r.1 × (length r.1 ≡ length cs)

  Turned-open :
      (before after : List Resource) (r : Tried (Unit {0})) (c : Socket)
      → fails c.fd ≡ false
      → Fits libc.fd_setsize c
      → Turned before after (r, c) (holding (before ++ fd c.fd ∷ after))
  Turned-open before after r c e h = (rw (e, owned) refl, h)

  Turned-closed :
      (before after : List Resource) (r : Tried (Unit {0}))
      → Turned before after (r, no_socket) (holding (before ++ after))
  Turned-closed before after r = (refl, λ e. cc)

module _ (libc : Libc) {most limit : ℕ} (buffer : List ℕ) (ready : List ℤ) where
  turn_kept :
      (before after : List Resource) (r : Tried (Unit {0})) (c : Socket)
      → fails c.fd ≡ false
      → Fits libc.fd_setsize c
      → Tidy most limit (Turned libc before after) (ret (r, c)) (before ++ fd c.fd ∷ after)
  turn_kept before after r c e h = res_ret (Turned-open libc before after r c e h)

  turn_closed :
      (before after : List Resource) (r : Tried (Unit {0})) (c : Socket)
      → Tidy most limit
          (Turned libc before after)
          (call (close c.fd) (λ _. ret (r, no_socket)))
          (before ++ fd c.fd ∷ after)
  turn_closed before after r c =
      res_close (Has-middle before after) λ _. res_ret (Turned-closed libc before after r)

  client_turn-Tidy_open :
      (before after : List Resource) (i : ℕ) (c : Socket)
      → fails c.fd ≡ false
      → Fits libc.fd_setsize c
      → Tidy most limit
          (Turned libc before after)
          (client_turn libc buffer ready i c)
          (before ++ fd c.fd ∷ after)
  unfolding client_turn
  client_turn-Tidy_open before after i c e h = res_else e (
      res_check (h e) (
        search
          (
            res_if,
            res_on,
            Held-middle before after,
            res_print,
            turn_kept before after,
            turn_closed before after,
            e,
            h,
          )
          depth 40 fits 20000))

  client_turn-Tidy_closed :
      (before after : List Resource) (i : ℕ) (c : Socket)
      → fails c.fd ≡ true
      → Fits libc.fd_setsize c
      → Tidy most limit
          (Turned libc before after)
          (client_turn libc buffer ready i c)
          (before ++ after)
  unfolding client_turn
  client_turn-Tidy_closed before after i c e h = res_then e (res_ret (rw (e, owned) refl, h))

  client_turn-Tidy :
      (before after : List Resource) (i : ℕ) (c : Socket)
      → Fits libc.fd_setsize c
      → Tidy most limit
          (Turned libc before after)
          (client_turn libc buffer ready i c)
          (before ++ (owned c.fd ++ after))
  client_turn-Tidy before after i c h = elim (Bool-cases (fails c.fd)) [
    | inl e ↦ rw (e, owned) (client_turn-Tidy_closed before after i c e h)
    | inr e ↦ rw (e, owned) (client_turn-Tidy_open before after i c e h)
  ]

  turned :
      (before : List Resource) (i : ℕ) (c : Socket) (cs : List Socket)
      → AllFit libc.fd_setsize cs
      → ((c' : Socket)
          → Tidy most limit
              (λ r b. (b ≡ holding ((before ++ owned c'.fd) ++ owned_all r.1)) × Kept libc cs r)
              (each_client libc buffer ready (suc i) cs)
              ((before ++ owned c'.fd) ++ owned_all cs))
      → (r : Tried (Unit {0}) × Socket) → Fits libc.fd_setsize r.1
      → Tidy most limit
          (λ r b. (b ≡ holding (before ++ owned_all r.1)) × Kept libc (c ∷ cs) r)
          (elim r.0 [
            | ok _ ↦ and_then (each_client libc buffer ready (suc i) cs) (put_back r.1)
            | threw e ↦ ret (threw e, r.1 ∷ cs)
          ])
          (before ++ (owned r.1.fd ++ owned_all cs))
  turned before i c cs h rest (threw e, c') k = res_ret (refl, ((k, h), refl))
  turned before i c cs h rest (ok _, c') k =
      rw (← append_assoc before (owned c'.fd) (owned_all cs)) (
        res_bind_known (λ r. (before ++ owned c'.fd) ++ owned_all r.1) (Kept libc cs)
          (each_client libc buffer ready (suc i) cs) _ (rest c')
          λ r k'.
            res_ret (
              rw (append_assoc before (owned c'.fd) (owned_all r.1)) refl,
              ((k, k'.0), ap suc k'.1),
            ))

  pub each_client-Tidy :
      (before : List Resource) (i : ℕ) (cs : List Socket)
      → AllFit libc.fd_setsize cs
      → Tidy most limit
          (λ r b. (b ≡ holding (before ++ owned_all r.1)) × Kept libc cs r)
          (each_client libc buffer ready i cs)
          (before ++ owned_all cs)
  unfolding each_client
  each_client-Tidy before i [] h = res_ret (refl, (tt, refl))
  each_client-Tidy before i (c ∷ cs) h =
      res_bind_known (λ r. before ++ (owned r.1.fd ++ owned_all cs)) (λ r. Fits libc.fd_setsize r.1)
        _ _ (client_turn-Tidy before (owned_all cs) i c h.0)
        (turned before i c cs h.1 λ c'. each_client-Tidy (before ++ owned c'.fd) (suc i) cs h.1)
