-- ===== src/Socket/ThreadServer/Resources.antt =====
-- The threaded server's descriptors and blocks, on both sides of `pthread_create`.
use linux_system_programming.Base.{ℕ, zero, suc, ℤ, ◌≡◌, List, [], ◌∷◌}
use linux_system_programming.Posix.{Libc, Reply, AllLawful, run, Obeys}
use linux_system_programming.Spec.Resources.{Resource, fd, block, holding, resources}
use linux_system_programming.Spec.Resources.Rules.{Tidy, resource_rules, res_bind, Tidy-Obeys}
use linux_system_programming.Socket.ThreadServer.{
  ClientInfo, handle_loop, handle_client, serve_loop, multithreaded_echo_server,
}

module _ {most limit : ℕ} where
  handle_loop-Tidy :
      (rounds : ℕ) (x : ℤ) (buffer : List ℕ) (l : List Resource)
      → Tidy most limit (λ _ b. b ≡ holding (fd x ∷ l)) (handle_loop rounds x buffer) (fd x ∷ l)
  unfolding handle_loop
  handle_loop-Tidy zero x buffer l = search resource_rules
  handle_loop-Tidy (suc rounds) x buffer l =
      search (resource_rules, handle_loop-Tidy rounds) depth 20

module _ (libc : Libc) {limit : ℕ} where
  handle_client-Tidy :
      (rounds : ℕ) (arg : ℤ) (info : ClientInfo) (buffer : List ℕ)
      → Tidy 3 limit
          (λ _ b. b ≡ holding [])
          (handle_client libc rounds arg info buffer)
          (fd info.client_fd ∷ block arg ∷ [])
  unfolding handle_client
  handle_client-Tidy rounds arg info buffer =
      search (resource_rules, res_bind, handle_loop-Tidy) depth 60 fits 20000

  -- Between two rounds the server holds the listening socket and nothing else.
  serve_loop-Tidy :
      (rounds : ℕ) (x : ℤ)
      → Tidy 3 limit (λ _ b. b ≡ holding (fd x ∷ [])) (serve_loop libc rounds x) (fd x ∷ [])
  unfolding serve_loop
  serve_loop-Tidy zero x = search resource_rules
  serve_loop-Tidy (suc rounds) x = search (resource_rules, serve_loop-Tidy rounds) depth 40

  multithreaded_echo_server-Tidy :
      (rounds : ℕ) → Tidy 3 limit (λ _ b. b ≡ holding []) (multithreaded_echo_server libc rounds) []
  unfolding multithreaded_echo_server
  multithreaded_echo_server-Tidy rounds =
      search (resource_rules, res_bind, serve_loop-Tidy) depth 60 fits 20000

-- Against any lawful history of replies `multithreaded_echo_server` uses, hands over, closes and frees
-- only what it holds; whenever it asks for a descriptor or a block it holds fewer than three; where it
-- returns it holds nothing.
pub multithreaded_echo_server-releases :
    (libc : Libc) (limit : ℕ) (rounds : ℕ) (rs : List Reply)
    → AllLawful limit (run (multithreaded_echo_server libc rounds) rs).events
    → Obeys
        (resources 3)
        (holding [])
        (λ _ b. b ≡ holding [])
        (run (multithreaded_echo_server libc rounds) rs)
multithreaded_echo_server-releases libc limit rounds rs l =
    Tidy-Obeys (multithreaded_echo_server-Tidy libc rounds) rs l

-- A thread that owns the connection and the block it was started with uses nothing else, and where
-- `handle_client` returns it has closed the connection and freed the block, each once.
pub handle_client-releases :
    (libc : Libc) (limit : ℕ) (rounds : ℕ) (arg : ℤ) (info : ClientInfo) (buffer : List ℕ)
    (rs : List Reply)
    → AllLawful limit (run (handle_client libc rounds arg info buffer) rs).events
    → Obeys
        (resources 3)
        (holding (fd info.client_fd ∷ block arg ∷ []))
        (λ _ b. b ≡ holding [])
        (run (handle_client libc rounds arg info buffer) rs)
handle_client-releases libc limit rounds arg info buffer rs l =
    Tidy-Obeys (handle_client-Tidy libc rounds arg info buffer) rs l
