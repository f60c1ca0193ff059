-- ===== src/Socket/ThreadServer/Echo.antt =====
-- handle_client against the promise of an echo.
use linux_system_programming.Posix.{AllLawful, run, Obeys, Safe-Obeys, Reply}
use linux_system_programming.Base.{ℕ, zero, suc, ℤ, ◌≡◌, List}
use linux_system_programming.Posix.{Libc, Safe}
use linux_system_programming.Spec.Echo.{echo, settled}
use linux_system_programming.Spec.Echo.Rules.{echo_rules, echo_bind}
use linux_system_programming.Socket.ThreadServer.{ClientInfo, handle_loop, handle_client}

module _ {limit : ℕ} where
  handle_loop-Echo :
      (rounds : ℕ) (x : ℤ) (buffer : List ℕ)
      → Safe limit echo (λ _ d. d ≡ settled) (handle_loop rounds x buffer) settled
  unfolding handle_loop
  handle_loop-Echo zero x buffer = search echo_rules
  handle_loop-Echo (suc rounds) x buffer = search (echo_rules, handle_loop-Echo rounds) depth 20

module _ (libc : Libc) {limit : ℕ} where
  handle_client-Echo :
      (rounds : ℕ) (arg : ℤ) (info : ClientInfo) (buffer : List ℕ)
      → Safe limit echo (λ _ d. d ≡ settled) (handle_client libc rounds arg info buffer) settled
  unfolding handle_client
  handle_client-Echo rounds arg info buffer =
      search (echo_rules, echo_bind, handle_loop-Echo) depth 20 fits 20000

-- Against any lawful history of replies, `handle_client` answers each received chunk with a `send` of
-- just these bytes on the same connection before it receives again or closes, and it sends nothing else.
pub handle_client-echoes :
    (libc : Libc) (limit : ℕ) (rounds : ℕ) (arg : ℤ) (info : ClientInfo) (buffer : List ℕ)
    (rs : List Reply)
    → AllLawful limit (run (handle_client libc rounds arg info buffer) rs).events
    → Obeys echo settled (λ _ d. d ≡ settled) (run (handle_client libc rounds arg info buffer) rs)
handle_client-echoes libc limit rounds arg info buffer rs l =
    Safe-Obeys echo (handle_client-Echo libc rounds arg info buffer) rs l
