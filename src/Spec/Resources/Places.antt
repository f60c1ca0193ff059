-- ===== src/Spec/Resources/Places.antt =====
-- Resources at any place of a list, and rules for code whose result carries facts of its own.
use linux_system_programming.Base.{
  arith, ◌≤◌, ℕ, ℤ, fails, ◌≡◌, refl, fun_ext, true, false, List, [], ◌∷◌, ◌++◌, length, ltb,
  append-nil,
}
use linux_system_programming.Posix.{
  SocketType, Call, socket, accept, on, close, malloc, free, pthread_create, start_thread, ask,
  Safe, safe_ret, safe_print, safe_spent, safe_fault, Reply, IsLawful, Prog, call, if◌then◌else◌,
  ◌>>=◌, safe_call, safe_if, Safe-bind, Safe-weaken,
}
use linux_system_programming.Spec.Resources.{
  Resource, fd, Holdings, holding, acquire, resources, Has, has_here, has_there, Has-count,
  Has-length,
}
use linux_system_programming.Spec.Resources.Rules.{
  Tidy, Held, Held-holds, held_here, held_there, room_at,
}

module _ {a : Resource} where
  pub Has-middle : (before after : List Resource) → Has a (before ++ a ∷ after) (before ++ after)
  Has-middle [] after = has_here
  Has-middle (b ∷ before) after = has_there (Has-middle before after)

  pub Held-middle : (before after : List Resource) → Held a (before ++ a ∷ after)
  Held-middle [] after = held_here
  Held-middle (b ∷ before) after = held_there (Held-middle before after)

  -- the bag of a list does not tell where `a` stands
  pub holding-Has : {l rest : List Resource} → Has a l rest → holding l ≡ holding (a ∷ rest)
  unfolding holding
  holding-Has h = rw (fun_ext (λ x. Has-count a x h), Has-length a h)

pub holding_last : (a : Resource) (l : List Resource) → holding (a ∷ l) ≡ holding (l ++ a ∷ [])
holding_last a l = rw (holding-Has (Has-middle {a = a} l []), append-nil l)

module _ {ℓ κ} {A : Type ℓ} {B : Type κ} {most limit : ℕ} {Q : B → Holdings → Type 0} where
  -- a callee with what is held and what is known after it
  pub res_bind_known :
      (held : A → List Resource) (Known : A → Type 0) (p : Prog A) (f : A → Prog B)
      {l : List Resource}
      → Tidy most limit (λ a b. (b ≡ holding (held a)) × Known a) p l
      → ((a : A) → Known a → Tidy most limit Q (f a) (held a))
      → Tidy most limit Q (p >>= f) l
  res_bind_known held Known p f h g = record {
    safe = Safe-bind f h.safe (λ a t e. rw e.0 (g a e.1).safe);
  }

module _ {ℓ} {A : Type ℓ} {most limit : ℕ} {Q : A → Holdings → Type 0} where
  -- where the range of the new descriptor matters
  pub res_socket_known :
      {t : SocketType} {p q : Reply → Prog A} {l : List Resource}
      → ltb (length l) most ≡ true
      → ((r : Reply) → fails r.value ≡ true → Tidy most limit Q (p r) l)
      → ((r : Reply)
          → IsLawful limit (socket t) r
          → fails r.value ≡ false
          → Tidy most limit Q (q r) (fd r.value ∷ l))
      → Tidy most limit Q (call (socket t) (λ r. if fails r.value then p r else q r)) l
  unfolding acquire holding
  res_socket_known room hp hq = record {
    safe =
        safe_call (room_at _ _ room)
          λ r lawful. safe_if (λ e. rw e (hp r e).safe) (λ e. rw e (hq r lawful e).safe);
  }

  pub res_accept_known :
      {x : ℤ} {p q : Reply → Prog A} {l : List Resource}
      → ltb (length l) most ≡ true
      → Held (fd x) l
      → ((r : Reply) → fails r.value ≡ true → Tidy most limit Q (p r) l)
      → ((r : Reply)
          → IsLawful limit (accept x) r
          → fails r.value ≡ false
          → Tidy most limit Q (q r) (fd r.value ∷ l))
      → Tidy most limit Q (call (accept x) (λ r. if fails r.value then p r else q r)) l
  unfolding acquire holding
  res_accept_known room h hp hq = record {
    safe =
        safe_call (rw (room_at _ _ room) (Held-holds h))
          λ r lawful. safe_if (λ e. rw e (hp r e).safe) (λ e. rw e (hq r lawful e).safe);
  }

module _ {ℓ} {A : Type ℓ} {most limit : ℕ} {Q R : A → Holdings → Type 0} where
  pub res_weaken :
      {p : Prog A} {l : List Resource}
      → Tidy most limit Q p l
      → ((a : A) (b : Holdings) → Q a b → R a b)
      → Tidy most limit R p l
  res_weaken h g = record { safe = Safe-weaken h.safe g }

-- A larger bound allows what a smaller one does.
allows_more :
    {m n : ℕ} (s : Holdings) (c : Call)
    → m ≤ n
    → (resources m).allows s c ≡ true
    → (resources n).allows s c ≡ true
allows_more s (socket t) le h = ground arith
allows_more s (accept x) le h = ground arith
allows_more s (on x q) le h = h
allows_more s (close x) le h = h
allows_more s (malloc k) le h = ground arith
allows_more s (free p) le h = h
allows_more s (pthread_create p x a) le h = h
allows_more s (start_thread x a) le h = h
allows_more s (ask q) le h = refl

module _ {ℓ} {A : Type ℓ} {m n limit : ℕ} {Q : A → Holdings → Type 0} (le : m ≤ n) where
  Safe-more :
      {p : Prog A} {s : Holdings} → Safe limit (resources m) Q p s → Safe limit (resources n) Q p s
  Safe-more (safe_ret q) = safe_ret q
  Safe-more (safe_call {c} {s} a h) = safe_call (allows_more s c le a) (λ r l. Safe-more (h r l))
  Safe-more (safe_print h) = safe_print (Safe-more h)
  Safe-more (safe_if hp hq) = safe_if (λ e. Safe-more (hp e)) (λ e. Safe-more (hq e))
  Safe-more safe_spent = safe_spent
  Safe-more (safe_fault h) = safe_fault h

  pub res_more : {p : Prog A} {l : List Resource} → Tidy m limit Q p l → Tidy n limit Q p l
  res_more h = record { safe = Safe-more h.safe }
