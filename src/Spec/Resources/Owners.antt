-- ===== src/Spec/Resources/Owners.antt =====
-- Rules for code that keeps a descriptor in an object: -1 stands for none, and a destructor tests for it.
use linux_system_programming.Base.{
  ℕ, ℤ, fails, is_zero, not, refl, ◌≡◌, Bool, true, false, List, [], ◌∷◌, length, ltb,
}
use linux_system_programming.Posix.{
  SockAddr, SocketType, socket, accept, close, start_thread, Reply, Prog, call, if◌then◌else◌,
  ◌>>=◌, bind_assoc, safe_call, safe_if, Safe-bind,
}
use linux_system_programming.Spec.Resources.{
  Resource, fd, Holdings, holding, acquire, Has, has_here, Has-holds, release-Has,
}
use linux_system_programming.Spec.Resources.Rules.{
  Tidy, Held, Held-holds, room_at, res_if, res_close_first, res_ret, res_print, res_spent, res_on,
  res_ask, held_here, held_there,
}

-- what an object with the descriptor `x` holds
abbrev pub owned : ℤ → List Resource
owned x = elim (fails x) [ true ↦ [] | false ↦ fd x ∷ [] ]

pub owned-closed : (x : ℤ) → fails x ≡ true → holding [] ≡ holding (owned x)
owned-closed x e = rw (e, owned)

pub owned-open : (x : ℤ) → fails x ≡ false → holding (fd x ∷ []) ≡ holding (owned x)
owned-open x e = rw (e, owned)

pub opened : (x : ℤ) → fails x ≡ false → not (fails x) ≡ true
opened x e = rw e refl

pub shut : (x : ℤ) → fails x ≡ true → not (fails x) ≡ false
shut x e = rw e refl

module _ {ℓ} {A : Type ℓ} {most limit : ℕ} {Q : A → Holdings → Type 0} where
  -- a test that is decided
  pub res_then :
      {b : Bool} {p q : Prog A} {l : List Resource}
      → b ≡ true
      → Tidy most limit Q p l
      → Tidy most limit Q (if b then p else q) l
  res_then e h = res_if (λ _. h) (λ e'. cc)

  pub res_else :
      {b : Bool} {p q : Prog A} {l : List Resource}
      → b ≡ false
      → Tidy most limit Q q l
      → Tidy most limit Q (if b then p else q) l
  res_else e h = res_if (λ e'. cc) (λ _. h)

  pub res_socket_tested :
      {t : SocketType} {p q : Reply → Prog A} {l : List Resource}
      → ltb (length l) most ≡ true
      → ((r : Reply) → fails r.value ≡ true → Tidy most limit Q (p r) l)
      → ((r : Reply) → fails r.value ≡ false → Tidy most limit Q (q r) (fd r.value ∷ l))
      → Tidy most limit Q (call (socket t) (λ r. if fails r.value then p r else q r)) l
  unfolding acquire holding
  res_socket_tested room hp hq = record {
    safe =
        safe_call (room_at _ _ room)
          λ r _. safe_if (λ e. rw e (hp r e).safe) (λ e. rw e (hq r e).safe);
  }

  pub res_accept_tested :
      {x : ℤ} {p q : Reply → Prog A} {l : List Resource}
      → ltb (length l) most ≡ true
      → Held (fd x) l
      → ((r : Reply) → fails r.value ≡ true → Tidy most limit Q (p r) l)
      → ((r : Reply) → fails r.value ≡ false → Tidy most limit Q (q r) (fd r.value ∷ l))
      → Tidy most limit Q (call (accept x) (λ r. if fails r.value then p r else q r)) l
  unfolding acquire holding
  res_accept_tested room h hp hq = record {
    safe =
        safe_call (rw (room_at _ _ room) (Held-holds h))
          λ r _. safe_if (λ e. rw e (hp r e).safe) (λ e. rw e (hq r e).safe);
  }

  -- The new thread takes over the descriptor.
  pub res_start_thread :
      {x : ℤ} {a : SockAddr} {f g : Reply → Prog A} {rest : List Resource}
      → ((r : Reply) → Tidy most limit Q (f r) rest)
      → ((r : Reply) → Tidy most limit Q (g r) (fd x ∷ rest))
      → Tidy most limit Q
          (call (start_thread x a) (λ r. if is_zero r.value then f r else g r))
          (fd x ∷ rest)
  res_start_thread {x} {rest} hf hg =
      let here : Has (fd x) (fd x ∷ rest) rest = has_here in
      record {
        safe = safe_call (Has-holds (fd x) here) λ r _.
            safe_if (λ e. rw (e, release-Has (fd x) here) (hf r).safe) (λ e. rw e (hg r).safe);
      }

  -- the destructor of an object that is known to hold a descriptor
  pub res_destroy :
      {x : ℤ} {p : Reply → Prog A} {q : Prog A} {rest : List Resource}
      → fails x ≡ false
      → ((r : Reply) → Tidy most limit Q (p r) rest)
      → Tidy most limit Q (if not (fails x) then call (close x) p else q) (fd x ∷ rest)
  res_destroy e h = res_then (rw e refl) (res_close_first h)

module _ {ℓ κ} {A : Type ℓ} {B : Type κ} {most limit : ℕ} {Q : B → Holdings → Type 0} where
  -- a callee after which what is held can be read off its result
  pub res_bind_holding :
      (held : A → List Resource) (p : Prog A) (f : A → Prog B) {l : List Resource}
      → Tidy most limit (λ a b. b ≡ holding (held a)) p l
      → ((a : A) → Tidy most limit Q (f a) (held a))
      → Tidy most limit Q (p >>= f) l
  res_bind_holding held p f h g = record { safe = Safe-bind f h.safe (λ a t e. rw e (g a).safe) }

module _ {ℓ κ μ} {A : Type ℓ} {B : Type κ} {C : Type μ} {most limit : ℕ}
    {Q : C → Holdings → Type 0} where
  pub res_assoc :
      (p : Prog A) (f : A → Prog B) (g : B → Prog C) {l : List Resource}
      → Tidy most limit Q (p >>= λ a. f a >>= g) l
      → Tidy most limit Q ((p >>= f) >>= g) l
  res_assoc p f g h = rw (bind_assoc p f g) h

pub ruleset owner_rules = (
  res_ret, res_print, res_spent, res_destroy, res_else, res_then, res_if, res_socket_tested,
  res_accept_tested, res_start_thread, res_close_first, res_on, res_ask, held_here, held_there,
  owned-closed, owned-open, opened, shut, refl,
)
