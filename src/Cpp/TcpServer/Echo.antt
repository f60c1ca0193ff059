-- ===== src/Cpp/TcpServer/Echo.antt =====
-- The threads of `TCPServer` against the promise of an echo.
use linux_system_programming.Base.{
  ℕ, zero, suc, pos, negsuc, ℤ, fails, positive, ◌≡◌, refl, List, [], ◌∷◌, pos_part, length,
  if◌then◌else◌,
}
use linux_system_programming.Posix
use linux_system_programming.Posix.{
  lit, text, Libc, SockAddr, on, recv, Reply, Prog, call, AllLawful, run, Obeys, Safe, safe_call,
  safe_if, safe_print, safe_ret, Safe-Obeys,
}
use linux_system_programming.Spec.Echo.{echo, Debt, settled, owes}
use linux_system_programming.Spec.Echo.Rules.{echo_rules, echo_bind}
use linux_system_programming.Cpp.Method.{
  Exception, Method, try_catch, resume, cout, Tried, ok, threw, error_code, message, system_error,
  handled, all_handled, cerr, what,
}
use linux_system_programming.Cpp.Socket.{Socket}
use linux_system_programming.Cpp.TcpServer.{echo_client, handle_client_impl, handle_client}

module _ {ℓ} {A : Type ℓ} {limit : ℕ} {Q : A → Debt → Type 0} where
  -- a read whose failure is thrown, and whose result is then tested
  echo-recv_checked :
      {x : ℤ} {size : ℕ} {p q w : Reply → Prog A}
      → ((r : Reply) → Safe limit echo Q (p r) settled)
      → ((r : Reply) → length r.bytes ≡ pos_part r.value → Safe limit echo Q (q r) (owes x r.bytes))
      → ((r : Reply) → Safe limit echo Q (w r) settled)
      → Safe limit echo Q
          (call (on x (recv size)) (λ r.
            Posix.if◌then◌else◌
              (fails r.value)
              (p r)
              (Posix.if◌then◌else◌ (positive r.value) (q r) (w r))))
          settled
  echo-recv_checked hp hq hw = safe_call refl λ r l. checked r.value (hp r) (hq r l.0) (hw r)
    where
      checked :
          {p q w : Prog A} {d : Debt} (n : ℤ)
          → Safe limit echo Q p settled
          → Safe limit echo Q q d
          → Safe limit echo Q w settled
          → Safe limit echo Q
              (Posix.if◌then◌else◌ (fails n) p (Posix.if◌then◌else◌ (positive n) q w))
              (if positive n then d else settled)
      checked (pos zero) h k l = safe_if (λ _. h) (λ _. safe_if (λ e. cc) (λ _. l))
      checked (pos (suc n)) h k l = safe_if (λ e. cc) (λ _. safe_if (λ _. k) (λ e. cc))
      checked (negsuc zero) h k l = safe_if (λ _. h) (λ e. cc)
      checked (negsuc (suc n)) h k l = safe_if (λ _. h) (λ _. safe_if (λ e. cc) (λ _. l))

module _ {S A : Type 0} {limit : ℕ} where
  -- what a caught exception leads to settles too
  try_catch-Echo :
      (m : Method S A) (h : Exception → Method S A) (s : S)
      → Safe limit echo (λ _ d. d ≡ settled) (m s) settled
      → ((e : Exception) (s' : S) → Safe limit echo (λ _ d. d ≡ settled) (h e s') settled)
      → Safe limit echo (λ _ d. d ≡ settled) (try_catch m h s) settled
  try_catch-Echo m h s k c = echo_bind (m s) _ k (cases h c)
    where
      cases :
          (h : Exception → Method S A)
          → ((e : Exception) (s' : S) → Safe limit echo (λ _ d. d ≡ settled) (h e s') settled)
          → (r : Tried A × S) → Safe limit echo (λ _ d. d ≡ settled) (handled h r) settled
      cases h c (ok a, s') = safe_ret refl
      cases h c (threw system_error, s') = safe_ret refl
      cases h c (threw (error_code context code), s') = c (error_code context code) s'
      cases h c (threw (message args), s') = c (message args) s'

module _ (libc : Libc) {limit : ℕ} where
  echo_client-Echo :
      (rounds : ℕ) (buffer : List ℕ) (addr : SockAddr) (client : Socket)
      → Safe limit echo (λ _ d. d ≡ settled) (echo_client libc rounds buffer addr client) settled
  unfolding echo_client
  echo_client-Echo zero buffer addr client = search echo_rules
  echo_client-Echo (suc rounds) buffer addr client =
      search (echo-recv_checked, echo_rules, echo_client-Echo rounds) depth 30 fits 20000

  handle_client-Echo :
      (rounds : ℕ) (buffer : List ℕ) (addr : SockAddr) (client : Socket)
      → Safe limit echo
          (λ _ d. d ≡ settled)
          (handle_client libc (handle_client_impl libc rounds buffer) client addr)
          settled
  unfolding handle_client handle_client_impl
  handle_client-Echo rounds buffer addr client =
      let h : Exception → Method Socket (Unit {0}) =
        (λ e. cerr (lit "Client error: " ∷ what libc e)) in
      echo_bind _ _
        (echo_bind _ _
          (echo_bind _ _
            (try_catch-Echo (echo_client libc rounds buffer addr) h client
              (echo_client-Echo rounds buffer addr client) (λ e s. safe_print (safe_ret refl)))
            said)
          unhandled)
        (λ r. search echo_rules)
    where
      said :
          (r : Tried (Unit {0}) × Socket)
          → Safe limit echo
              (λ _ d. d ≡ settled)
              (resume
                (λ _. cout (lit "Client disconnected: " ∷ text (libc.inet_ntop addr.host) ∷ []))
                r)
              settled
      said (ok _, s) = safe_print (safe_ret refl)
      said (threw e, s) = safe_ret refl

      unhandled :
          (r : Tried (Unit {0}) × Socket)
          → Safe limit echo
              (λ _ d. d ≡ settled)
              (all_handled (λ e. cerr (lit "Unhandled exception: " ∷ what libc e)) r)
              settled
      unhandled (ok _, s) = safe_ret refl
      unhandled (threw e, s) = safe_print (safe_ret refl)

-- Against any lawful history of replies, a thread of the C++ echo server answers each received chunk
-- with a `send` of just these bytes on the same connection before it receives again or closes, and it
-- sends nothing else, whether its loop ends or throws.
pub handle_client-returns_bytes :
    (libc : Libc) (limit rounds : ℕ) (buffer : List ℕ) (addr : SockAddr) (client : Socket)
    (rs : List Reply)
    → AllLawful limit
        (run (handle_client libc (handle_client_impl libc rounds buffer) client addr) rs).events
    → Obeys echo settled
        (λ _ d. d ≡ settled)
        (run (handle_client libc (handle_client_impl libc rounds buffer) client addr) rs)
handle_client-returns_bytes libc limit rounds buffer addr client rs l =
    Safe-Obeys echo (handle_client-Echo libc rounds buffer addr client) rs l
