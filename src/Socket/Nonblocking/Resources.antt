-- ===== src/Socket/Nonblocking/Resources.antt =====
-- The descriptor of the non-blocking client.
use linux_system_programming.Posix.{AllLawful, run, Obeys, Reply}
use linux_system_programming.Spec.Resources.{resources}
use linux_system_programming.Spec.Resources.Rules.{Tidy-Obeys}
use linux_system_programming.Base.{
  ℕ, ℤ, minus_one, fails, ◌≤◌, ◌≡◌, ◌⊎◌, inl, inr, true, false, refl, List, [], ◌∷◌,
}
use linux_system_programming.Posix.{Libc, fits_set, fits_set-new, Reply}
use linux_system_programming.Spec.Resources.{Resource, fd, Holdings, holding}
use linux_system_programming.Spec.Resources.Rules.{
  Tidy, res_if, res_ask, res_on, held_here, resource_rules, res_bind, res_socket_lawful,
}
use linux_system_programming.Socket.Nonblocking.{
  set_nonblocking, await_connection, nonblocking_connect,
}

-- What the caller gets: -1 with nothing open, or the one descriptor that is open.
abbrev pub Handed : ℤ → Holdings → Type 0
Handed v b = ((v ≡ minus_one) × (b ≡ holding [])) ⊎ ((fails v ≡ false) × (b ≡ holding (fd v ∷ [])))

module _ (libc : Libc) {limit : ℕ} where
  set_nonblocking-Tidy :
      (x : ℤ) (l : List Resource)
      → Tidy 1 limit (λ _ b. b ≡ holding (fd x ∷ l)) (set_nonblocking libc x) (fd x ∷ l)
  unfolding set_nonblocking
  set_nonblocking-Tidy x l = search resource_rules depth 20

  await_connection-Tidy :
      (x timeout_sec : ℤ)
      → fails x ≡ false
      → fits_set libc.fd_setsize x ≡ true
      → Tidy 1 limit Handed (await_connection libc x timeout_sec) (fd x ∷ [])
  unfolding await_connection
  await_connection-Tidy x timeout_sec = search (resource_rules, inl, inr) depth 20 fits 20000

  nonblocking_connect-Tidy :
      (host : List ℕ) (port timeout_sec : ℤ)
      → limit ≤ libc.fd_setsize
      → Tidy 1 limit Handed (nonblocking_connect libc host port timeout_sec) []
  unfolding nonblocking_connect
  nonblocking_connect-Tidy host port timeout_sec le =
      res_socket_lawful refl (λ r. search (resource_rules, inl))
        λ r l e.
          let connected =
            await_connection-Tidy r.value timeout_sec e
              (fits_set-new libc.fd_setsize r.value le l.0 l.1 e) in
          res_bind _ _ (set_nonblocking-Tidy r.value []) λ set.
            res_if (λ _. search (resource_rules, inl))
              λ _. res_ask λ converted. res_on held_here λ reply _.
                res_if (λ _. res_if (λ _. search (resource_rules, inl)) (λ _. connected))
                  (λ _. connected)

-- With a limit on open descriptors that is at most FD_SETSIZE and any lawful history of replies,
-- `nonblocking_connect` names only its own open socket, gives `FD_SET` only a descriptor that fits, and
-- returns either -1 with nothing open or its socket, which is then the only thing open.
pub nonblocking_connect-hands_over :
    (libc : Libc) (limit : ℕ) (host : List ℕ) (port timeout_sec : ℤ) (rs : List Reply)
    → limit ≤ libc.fd_setsize
    → AllLawful limit (run (nonblocking_connect libc host port timeout_sec) rs).events
    → Obeys
        (resources 1)
        (holding [])
        Handed
        (run (nonblocking_connect libc host port timeout_sec) rs)
nonblocking_connect-hands_over libc limit host port timeout_sec rs le l =
    Tidy-Obeys (nonblocking_connect-Tidy libc host port timeout_sec le) rs l
