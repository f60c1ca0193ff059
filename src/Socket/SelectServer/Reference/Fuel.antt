-- ===== src/Socket/SelectServer/Reference/Fuel.antt =====
-- The rounds of select_based_server's main loop.
use linux_system_programming.Base.{ℕ, zero, suc, ℤ, List, [], ◌∷◌, length, ◌<◌, ◌≢◌}
use linux_system_programming.Posix.{
  Libc, Lasts, Lasts-bind, lasts_rules, Lasts-run, Reply, run, cut,
}
use linux_system_programming.Socket.Nonblocking.{set_nonblocking}
use linux_system_programming.Socket.SelectServer.{select_based_server}
use linux_system_programming.Socket.SelectServer.Reference.{
  serve_clients, close_all, admit, watch_clients, reference_server,
}
use linux_system_programming.Socket.SelectServer.Reference.Refinement.{
  select_based_server-reference_server,
}

module _ (n : ℕ) where
  serve_clients-Lasts :
      (fd_setsize : ℕ) (ready kept clients : List ℤ) (buffer : List ℕ)
      → Lasts (serve_clients fd_setsize ready kept clients buffer) n
  unfolding serve_clients
  serve_clients-Lasts fd_setsize ready kept [] buffer = search lasts_rules
  serve_clients-Lasts fd_setsize ready kept (c ∷ clients) buffer =
      let rest = λ (k : List ℤ) (b : List ℕ). serve_clients-Lasts fd_setsize ready k clients b in
      search (lasts_rules, rest) depth 40 fits 20000

  close_all-Lasts : (clients : List ℤ) → Lasts (close_all clients) n
  unfolding close_all
  close_all-Lasts [] = search lasts_rules
  close_all-Lasts (c ∷ clients) = search (lasts_rules, close_all-Lasts clients)

  set_nonblocking-Lasts : (libc : Libc) (x : ℤ) → Lasts (set_nonblocking libc x) n
  unfolding set_nonblocking
  set_nonblocking-Lasts libc x = search lasts_rules depth 20

  admit-Lasts :
      (libc : Libc) (x : ℤ) (ready clients : List ℤ) → Lasts (admit libc x ready clients) n
  unfolding admit
  admit-Lasts libc x ready clients = search lasts_rules depth 20

module _ (libc : Libc) where
  watch_clients-Lasts :
      (rounds : ℕ) (x : ℤ) (clients : List ℤ) (buffer : List ℕ)
      → Lasts (watch_clients libc rounds x clients buffer) rounds
  unfolding watch_clients
  watch_clients-Lasts zero x clients buffer = search lasts_rules
  watch_clients-Lasts (suc rounds) x clients buffer =
      search (lasts_rules, Lasts-bind, watch_clients-Lasts rounds, admit-Lasts, serve_clients-Lasts)
        depth 40 fits 20000

  reference_server-Lasts :
      (rounds : ℕ) (buffer : List ℕ) → Lasts (reference_server libc rounds buffer) rounds
  unfolding reference_server
  reference_server-Lasts rounds buffer =
      search (lasts_rules, Lasts-bind, watch_clients-Lasts, close_all-Lasts, set_nonblocking-Lasts)
        depth 60 fits 20000

-- With more rounds than there are replies, a run of `select_based_server` is never cut short.
pub select_based_server-enough :
    (libc : Libc) (rounds : ℕ) (buffer : List ℕ) (rs : List Reply)
    → length rs < rounds
    → (run (select_based_server libc rounds buffer) rs).outcome ≢ cut
select_based_server-enough libc rounds buffer rs lt =
    rw (select_based_server-reference_server libc rounds buffer rs)
      (Lasts-run (reference_server-Lasts libc rounds buffer) rs lt)
