-- ===== src/Spec/Asking/Rules.antt =====
-- One rule for each kind of node, for `search`.
use linux_system_programming.Base.{ℕ, ℤ, fails, ==ℤ_self, refl, ◌≡◌, true, false, List}
use linux_system_programming.Posix.{
  SockAddr, SocketType, Call, socket, on, connect, send, recv, sendto, recvfrom, Reply, Prog, call,
  if◌then◌else◌, Safe, safe_call, safe_ret, safe_print, safe_if, IsLawful, Safe-check,
}
use linux_system_programming.Spec.Echo.{same_bytes_self}
use linux_system_programming.Spec.Asking.{Stage, created, connected, sent, answered, asking}

module _ {ℓ} {A : Type ℓ} {limit : ℕ} {message : List ℕ} {Q : A → Stage → Type 0} where
  pub ask_socket :
      {t : SocketType} {p q : Reply → Prog A} {s : Stage}
      → ((r : Reply) → Safe limit (asking message) Q (p r) s)
      → ((r : Reply) → Safe limit (asking message) Q (q r) (created r.value))
      → Safe limit (asking message) Q (call (socket t) (λ r. if fails r.value then p r else q r)) s
  ask_socket hp hq = safe_call refl λ r l. safe_if (λ e. rw e (hp r)) (λ e. rw e (hq r))

  pub ask_connect :
      {x : ℤ} {a : SockAddr} {p q : Reply → Prog A}
      → ((r : Reply) → Safe limit (asking message) Q (p r) (created x))
      → ((r : Reply) → Safe limit (asking message) Q (q r) (connected x))
      → Safe limit
          (asking message)
          Q
          (call (on x (connect a)) (λ r. if fails r.value then p r else q r))
          (created x)
  ask_connect {x} hp hq =
      safe_call (==ℤ_self x) λ r l. safe_if (λ e. rw e (hp r)) (λ e. rw e (hq r))

  pub ask_send :
      {x : ℤ} {p q : Reply → Prog A}
      → ((r : Reply) → Safe limit (asking message) Q (p r) (connected x))
      → ((r : Reply) → Safe limit (asking message) Q (q r) (sent x))
      → Safe limit
          (asking message)
          Q
          (call (on x (send message)) (λ r. if fails r.value then p r else q r))
          (connected x)
  ask_send {x} hp hq =
      safe_call (rw (==ℤ_self x, same_bytes_self message) refl)
        λ r l. safe_if (λ e. rw e (hp r)) (λ e. rw e (hq r))

  pub ask_sendto :
      {x : ℤ} {a : SockAddr} {p q : Reply → Prog A}
      → ((r : Reply) → Safe limit (asking message) Q (p r) (created x))
      → ((r : Reply) → Safe limit (asking message) Q (q r) (sent x))
      → Safe limit
          (asking message)
          Q
          (call (on x (sendto message a)) (λ r. if fails r.value then p r else q r))
          (created x)
  ask_sendto {x} hp hq =
      safe_call (rw (==ℤ_self x, same_bytes_self message) refl)
        λ r l. safe_if (λ e. rw e (hp r)) (λ e. rw e (hq r))

  pub ask_recv :
      {x : ℤ} {n : ℕ} {p q : Reply → Prog A}
      → ((r : Reply) → Safe limit (asking message) Q (p r) (sent x))
      → ((r : Reply)
          → IsLawful limit (on x (recv n)) r
          → fails r.value ≡ false
          → Safe limit (asking message) Q (q r) (answered x))
      → Safe limit
          (asking message)
          Q
          (call (on x (recv n)) (λ r. if fails r.value then p r else q r))
          (sent x)
  ask_recv {x} hp hq =
      safe_call (==ℤ_self x) λ r l. safe_if (λ e. rw e (hp r)) (λ e. rw e (hq r l e))

  pub ask_recvfrom :
      {x : ℤ} {n : ℕ} {p q : Reply → Prog A}
      → ((r : Reply) → Safe limit (asking message) Q (p r) (sent x))
      → ((r : Reply)
          → IsLawful limit (on x (recvfrom n)) r
          → fails r.value ≡ false
          → Safe limit (asking message) Q (q r) (answered x))
      → Safe limit
          (asking message)
          Q
          (call (on x (recvfrom n)) (λ r. if fails r.value then p r else q r))
          (sent x)
  ask_recvfrom {x} hp hq =
      safe_call (==ℤ_self x) λ r l. safe_if (λ e. rw e (hp r)) (λ e. rw e (hq r l e))

  -- any other call
  pub ask_call :
      {c : Call} {k : Reply → Prog A} {s : Stage}
      → (asking message).allows s c ≡ true
      → ((r : Reply) → (asking message).next s c r ≡ s)
      → ((r : Reply) → Safe limit (asking message) Q (k r) s)
      → Safe limit (asking message) Q (call c k) s
  ask_call a n hk = safe_call a (λ r l. rw (n r) (hk r))

pub ruleset asking_rules = (
  safe_ret, safe_print, safe_if, Safe-check, ask_socket, ask_connect, ask_send, ask_sendto,
  ask_recv, ask_recvfrom, ask_call, refl,
)
