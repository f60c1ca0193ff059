-- ===== src/Socket/Bandwidth/Resources.antt =====
-- The bandwidth test's descriptors.
use linux_system_programming.Posix.{AllLawful, run, Obeys, Reply}
use linux_system_programming.Spec.Resources.{resources}
use linux_system_programming.Spec.Resources.Rules.{Tidy-Obeys}
use linux_system_programming.Base.{ℕ, zero, suc, ℤ, ◌≡◌, List, [], ◌∷◌}
use linux_system_programming.Posix.{Libc, Reply, Prog, ◌>>=◌, AllLawful, run, Obeys}
use linux_system_programming.Spec.Resources.{Resource, fd, Holdings, holding}
use linux_system_programming.Spec.Resources.Rules.{Tidy, resource_rules, res_bind, Tidy-Obeys}
use linux_system_programming.Socket.Bandwidth.{
  receive_loop, send_loop, bandwidth_test_server, bandwidth_test_client,
}

module _ {most limit : ℕ} where
  receive_loop-Tidy :
      (rounds : ℕ) (x start : ℤ) (bytes : ℕ) (l : List Resource)
      → Tidy most limit
          (λ _ b. b ≡ holding (fd x ∷ l))
          (receive_loop rounds x start bytes)
          (fd x ∷ l)
  unfolding receive_loop
  receive_loop-Tidy zero x start bytes l = search resource_rules
  receive_loop-Tidy (suc rounds) x start bytes l =
      search (resource_rules, receive_loop-Tidy rounds) depth 20

  send_loop-Tidy :
      (rounds : ℕ) (x : ℤ) (buffer : List ℕ) (duration start : ℤ) (bytes : ℕ) (l : List Resource)
      → Tidy most limit
          (λ _ b. b ≡ holding (fd x ∷ l))
          (send_loop rounds x buffer duration start bytes)
          (fd x ∷ l)
  unfolding send_loop
  send_loop-Tidy zero x buffer duration start bytes l = search resource_rules
  send_loop-Tidy (suc rounds) x buffer duration start bytes l =
      search (resource_rules, send_loop-Tidy rounds) depth 20

module _ {ℓ} {A : Type ℓ} {most limit : ℕ} {Q : A → Holdings → Type 0} where
  -- the loops where the callers have them
  receive_loop-then :
      (rounds : ℕ) (x start : ℤ) (bytes : ℕ) (f : ℕ → Prog A) (l : List Resource)
      → ((n : ℕ) → Tidy most limit Q (f n) (fd x ∷ l))
      → Tidy most limit Q (receive_loop rounds x start bytes >>= f) (fd x ∷ l)
  receive_loop-then rounds x start bytes f l h =
      res_bind _ f (receive_loop-Tidy rounds x start bytes l) h

  send_loop-then :
      (rounds : ℕ) (x : ℤ) (buffer : List ℕ) (duration start : ℤ) (bytes : ℕ) (f : ℕ → Prog A)
      (l : List Resource)
      → ((n : ℕ) → Tidy most limit Q (f n) (fd x ∷ l))
      → Tidy most limit Q (send_loop rounds x buffer duration start bytes >>= f) (fd x ∷ l)
  send_loop-then rounds x buffer duration start bytes f l h =
      res_bind _ f (send_loop-Tidy rounds x buffer duration start bytes l) h

module _ (libc : Libc) {limit : ℕ} where
  bandwidth_test_server-Tidy :
      (rounds : ℕ) (port : ℤ)
      → Tidy 2 limit (λ _ b. b ≡ holding []) (bandwidth_test_server libc rounds port) []
  unfolding bandwidth_test_server
  bandwidth_test_server-Tidy rounds port =
      search (resource_rules, receive_loop-then) depth 60 fits 20000

  bandwidth_test_client-Tidy :
      (rounds : ℕ) (host : List ℕ) (port duration : ℤ)
      → Tidy 2 limit
          (λ _ b. b ≡ holding [])
          (bandwidth_test_client libc rounds host port duration)
          []
  unfolding bandwidth_test_client
  bandwidth_test_client-Tidy rounds host port duration =
      search (resource_rules, send_loop-then) depth 60 fits 20000

-- Against any lawful history of replies `bandwidth_test_server` names only descriptors that it holds,
-- and on every path on which it returns it has closed each of them once.
pub bandwidth_test_server-releases :
    (libc : Libc) (limit : ℕ) (rounds : ℕ) (port : ℤ) (rs : List Reply)
    → AllLawful limit (run (bandwidth_test_server libc rounds port) rs).events
    → Obeys
        (resources 2)
        (holding [])
        (λ _ b. b ≡ holding [])
        (run (bandwidth_test_server libc rounds port) rs)
bandwidth_test_server-releases libc limit rounds port rs l =
    Tidy-Obeys (bandwidth_test_server-Tidy libc rounds port) rs l

-- Against any lawful history of replies `bandwidth_test_client` names only its own open socket, and on
-- every path on which it returns it has closed it once.
pub bandwidth_test_client-releases :
    (libc : Libc) (limit : ℕ) (rounds : ℕ) (host : List ℕ) (port duration : ℤ) (rs : List Reply)
    → AllLawful limit (run (bandwidth_test_client libc rounds host port duration) rs).events
    → Obeys
        (resources 2)
        (holding [])
        (λ _ b. b ≡ holding [])
        (run (bandwidth_test_client libc rounds host port duration) rs)
bandwidth_test_client-releases libc limit rounds host port duration rs l =
    Tidy-Obeys (bandwidth_test_client-Tidy libc rounds host port duration) rs l
