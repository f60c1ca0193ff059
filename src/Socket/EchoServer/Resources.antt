-- ===== src/Socket/EchoServer/Resources.antt =====
-- simple_echo_server's descriptors.
use linux_system_programming.Base.{ℕ, zero, suc, ℤ, ◌≡◌, List, [], ◌∷◌}
use linux_system_programming.Posix.{Libc, Reply, AllLawful, run, Obeys}
use linux_system_programming.Spec.Resources.{Resource, fd, holding, resources}
use linux_system_programming.Spec.Resources.Rules.{Tidy, resource_rules, res_bind, Tidy-Obeys}
use linux_system_programming.Socket.EchoServer.{echo_loop, accept_loop, simple_echo_server}

module _ {most limit : ℕ} where
  echo_loop-Tidy :
      (rounds : ℕ) (x : ℤ) (buffer : List ℕ) (l : List Resource)
      → Tidy most limit (λ _ b. b ≡ holding (fd x ∷ l)) (echo_loop rounds x buffer) (fd x ∷ l)
  unfolding echo_loop
  echo_loop-Tidy zero x buffer l = search resource_rules
  echo_loop-Tidy (suc rounds) x buffer l = search (resource_rules, echo_loop-Tidy rounds) depth 20

module _ (libc : Libc) {limit : ℕ} where
  -- Between two rounds the server holds the listening socket and nothing else.
  accept_loop-Tidy :
      (rounds : ℕ) (x : ℤ) (buffer : List ℕ)
      → Tidy 2 limit (λ _ b. b ≡ holding (fd x ∷ [])) (accept_loop libc rounds x buffer) (fd x ∷ [])
  unfolding accept_loop
  accept_loop-Tidy zero x buffer = search resource_rules
  accept_loop-Tidy (suc rounds) x buffer =
      search (resource_rules, res_bind, accept_loop-Tidy rounds, echo_loop-Tidy) depth 60 fits 20000

  simple_echo_server-Tidy :
      (rounds : ℕ) (buffer : List ℕ)
      → Tidy 2 limit (λ _ b. b ≡ holding []) (simple_echo_server libc rounds buffer) []
  unfolding simple_echo_server
  simple_echo_server-Tidy rounds buffer =
      search (resource_rules, res_bind, accept_loop-Tidy) depth 60 fits 20000

-- Against any lawful history of replies `simple_echo_server` names only descriptors that it holds,
-- closes none twice, holds fewer than two whenever it asks for another, does not fault, and where it
-- returns it holds nothing.
pub simple_echo_server-releases :
    (libc : Libc) (limit : ℕ) (rounds : ℕ) (buffer : List ℕ) (rs : List Reply)
    → AllLawful limit (run (simple_echo_server libc rounds buffer) rs).events
    → Obeys
        (resources 2)
        (holding [])
        (λ _ b. b ≡ holding [])
        (run (simple_echo_server libc rounds buffer) rs)
simple_echo_server-releases libc limit rounds buffer rs l =
    Tidy-Obeys (simple_echo_server-Tidy libc rounds buffer) rs l
