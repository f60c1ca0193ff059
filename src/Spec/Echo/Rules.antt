-- ===== src/Spec/Echo/Rules.antt =====
-- One rule for each kind of node, for `search`.
use linux_system_programming.Base.{
  ℕ, ℤ, pos_part, fails, positive, refl, ◌≡◌, Bool, true, false, List, take, take-append, length,
}
use linux_system_programming.Posix.{
  SockAddr, SocketType, Request, recv, send, recvfrom, sendto, Service, Call, socket, accept, on,
  close, ask, Reply, Line, Prog, ret, call, print, spent, if◌then◌else◌, ◌>>=◌, fill, Safe,
  safe_call, safe_ret, safe_print, safe_spent, safe_if, Safe-bind,
}
use linux_system_programming.Spec.Echo.{Debt, settled, owes, owes_to, echo, pays-send, pays-sendto}

-- What the code sends is what a lawful read brought.
pub take-fill :
    (buffer : List ℕ) (r : Reply)
    → length r.bytes ≡ pos_part r.value
    → take (pos_part r.value) (fill buffer r.bytes) ≡ r.bytes
take-fill buffer r l = rw (← l) (take-append r.bytes _)

module _ {ℓ} {A : Type ℓ} {limit : ℕ} {Q : A → Debt → Type 0} where
  pub echo-recv :
      {x : ℤ} {size : ℕ} {p q : Reply → Prog A}
      → ((r : Reply) → length r.bytes ≡ pos_part r.value → Safe limit echo Q (p r) (owes x r.bytes))
      → ((r : Reply) → Safe limit echo Q (q r) settled)
      → Safe limit echo Q
          (call (on x (recv size)) (λ r. if positive r.value then p r else q r))
          settled
  echo-recv hp hq = safe_call refl λ r l. safe_if (λ e. rw e (hp r l.0)) (λ e. rw e (hq r))

  pub echo-recvfrom :
      {x : ℤ} {size : ℕ} {p q : Reply → Prog A}
      → ((r : Reply) → Safe limit echo Q (p r) settled)
      → ((r : Reply)
          → length r.bytes ≡ pos_part r.value
          → Safe limit echo Q (q r) (owes_to x r.bytes r.from))
      → Safe limit echo Q
          (call (on x (recvfrom size)) (λ r. if fails r.value then p r else q r))
          settled
  echo-recvfrom hp hq = safe_call refl λ r l. safe_if (λ e. rw e (hp r)) (λ e. rw e (hq r l.0))

  pub echo-send :
      {x : ℤ} {bytes owed : List ℕ} {k : Reply → Prog A}
      → bytes ≡ owed
      → ((r : Reply) → Safe limit echo Q (k r) settled)
      → Safe limit echo Q (call (on x (send bytes)) k) (owes x owed)
  echo-send {x} {owed} e hk = rw e (safe_call (pays-send x owed) (λ r l. hk r))

  pub echo-sendto :
      {x : ℤ} {bytes owed : List ℕ} {a : SockAddr} {k : Reply → Prog A}
      → bytes ≡ owed
      → ((r : Reply) → Safe limit echo Q (k r) settled)
      → Safe limit echo Q (call (on x (sendto bytes a)) k) (owes_to x owed a)
  echo-sendto {x} {owed} {a} e hk = rw e (safe_call (pays-sendto x owed a) (λ r l. hk r))

  pub echo_ask :
      {q : Service} {d : Debt} {k : Reply → Prog A}
      → ((r : Reply) → Safe limit echo Q (k r) d)
      → Safe limit echo Q (call (ask q) k) d
  echo_ask hk = safe_call refl (λ r l. hk r)

  -- any other call, while nothing is owed
  pub echo_call :
      {c : Call} {k : Reply → Prog A}
      → echo.allows settled c ≡ true
      → ((r : Reply) → echo.next settled c r ≡ settled)
      → ((r : Reply) → Safe limit echo Q (k r) settled)
      → Safe limit echo Q (call c k) settled
  echo_call a n hk = safe_call a (λ r l. rw (n r) (hk r))

module _ {ℓ κ} {A : Type ℓ} {B : Type κ} {limit : ℕ} {Q : B → Debt → Type 0} where
  pub echo_bind :
      (p : Prog A) (f : A → Prog B)
      → Safe limit echo (λ _ d. d ≡ settled) p settled
      → ((a : A) → Safe limit echo Q (f a) settled)
      → Safe limit echo Q (p >>= f) settled
  echo_bind p f h g = Safe-bind f h (λ a t e. rw e (g a))

pub ruleset echo_rules = (
  safe_ret, safe_print, safe_spent, safe_if, echo-recv, echo-recvfrom, echo-send, echo-sendto,
  echo_ask, echo_call, take-fill, refl,
)
