-- ===== src/Spec/Serving/Rules.antt =====
-- One rule for each kind of node, for `search`.
use linux_system_programming.Base.{ℕ, ℤ, fails, ==ℤ_self, refl, ◌≡◌, true}
use linux_system_programming.Posix.{
  SockAddr, SocketType, Call, socket, accept, on, bind, listen, recvfrom, Reply, Prog, call,
  if◌then◌else◌, ◌>>=◌, Safe, safe_call, safe_ret, safe_print, safe_spent, safe_if, Safe-bind,
}
use linux_system_programming.Spec.Serving.{Stage, created, bound, listening, serving}

module _ {ℓ} {A : Type ℓ} {limit : ℕ} {Q : A → Stage → Type 0} where
  pub serve_socket :
      {t : SocketType} {p q : Reply → Prog A} {s : Stage}
      → ((r : Reply) → Safe limit serving Q (p r) s)
      → ((r : Reply) → Safe limit serving Q (q r) (created r.value))
      → Safe limit serving Q (call (socket t) (λ r. if fails r.value then p r else q r)) s
  serve_socket hp hq = safe_call refl λ r l. safe_if (λ e. rw e (hp r)) (λ e. rw e (hq r))

  pub serve_bind :
      {x : ℤ} {a : SockAddr} {p q : Reply → Prog A}
      → ((r : Reply) → Safe limit serving Q (p r) (created x))
      → ((r : Reply) → Safe limit serving Q (q r) (bound x))
      → Safe limit serving Q
          (call (on x (bind a)) (λ r. if fails r.value then p r else q r))
          (created x)
  serve_bind {x} hp hq = safe_call (==ℤ_self x) λ r l. safe_if (λ e. rw e (hp r)) (λ e. rw e (hq r))

  pub serve_listen :
      {x : ℤ} {n : ℕ} {p q : Reply → Prog A}
      → ((r : Reply) → Safe limit serving Q (p r) (bound x))
      → ((r : Reply) → Safe limit serving Q (q r) (listening x))
      → Safe limit serving Q
          (call (on x (listen n)) (λ r. if fails r.value then p r else q r))
          (bound x)
  serve_listen {x} hp hq =
      safe_call (==ℤ_self x) λ r l. safe_if (λ e. rw e (hp r)) (λ e. rw e (hq r))

  pub serve_accept :
      {x : ℤ} {k : Reply → Prog A}
      → ((r : Reply) → Safe limit serving Q (k r) (listening x))
      → Safe limit serving Q (call (accept x) k) (listening x)
  serve_accept {x} hk = safe_call (==ℤ_self x) (λ r l. hk r)

  pub serve_recvfrom :
      {x : ℤ} {n : ℕ} {k : Reply → Prog A}
      → ((r : Reply) → Safe limit serving Q (k r) (bound x))
      → Safe limit serving Q (call (on x (recvfrom n)) k) (bound x)
  serve_recvfrom {x} hk = safe_call (==ℤ_self x) (λ r l. hk r)

  -- any other call
  pub serve_call :
      {c : Call} {k : Reply → Prog A} {s : Stage}
      → serving.allows s c ≡ true
      → ((r : Reply) → serving.next s c r ≡ s)
      → ((r : Reply) → Safe limit serving Q (k r) s)
      → Safe limit serving Q (call c k) s
  serve_call a n hk = safe_call a (λ r l. rw (n r) (hk r))

module _ {ℓ κ} {A : Type ℓ} {B : Type κ} {limit : ℕ} {Q : B → Stage → Type 0} where
  pub serve_bind_callee :
      {s : Stage} (p : Prog A) (f : A → Prog B)
      → Safe limit serving (λ _ t. t ≡ s) p s
      → ((a : A) → Safe limit serving Q (f a) s)
      → Safe limit serving Q (p >>= f) s
  serve_bind_callee p f h g = Safe-bind f h (λ a t e. rw e (g a))

  -- a callee that does not return
  pub serve_endless :
      {s : Stage} (p : Prog A) (f : A → Prog B)
      → Safe limit serving (λ _ _. ⊥) p s
      → Safe limit serving Q (p >>= f) s
  serve_endless p f h = Safe-bind f h (λ a t e. absurd e)

pub ruleset serving_rules = (
  safe_ret, safe_print, safe_spent, safe_if, serve_socket, serve_bind, serve_listen, serve_accept,
  serve_recvfrom, serve_call, refl,
)
