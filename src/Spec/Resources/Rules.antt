-- ===== src/Spec/Resources/Rules.antt =====
-- One rule for each kind of node, for `search`.
use linux_system_programming.Base.{
  ℕ, ℤ, fails, is_zero, nonzero, is_zero-nonzero, refl, ◌≡◌, Bool, true, false, List, ◌∷◌, length,
  ltb,
}
use linux_system_programming.Posix.{
  SockAddr, SocketType, Request, Service, socket, accept, on, close, malloc, free, pthread_create,
  ask, Reply, IsLawful, Line, Prog, ret, call, print, fault, spent, if◌then◌else◌, ◌>>=◌, run,
  AllLawful, Obeys, Safe, safe_call, safe_ret, safe_print, safe_spent, safe_if, Safe-check,
  Safe-bind, Safe-Obeys,
}
use linux_system_programming.Spec.Resources.{
  Resource, fd, block, Holdings, holding, holds, resources, Has, has_here, has_there, Has-holds,
  release-Has, acquire,
}

-- All runs of `p`, begun with the resources `l`, name only what is held, and end in `Q`.
pub record Tidy {ℓ} {A : Type ℓ} (most limit : ℕ) (Q : A → Holdings → Type 0) (p : Prog A)
    (l : List Resource) : Type ℓ where
  pub safe : Safe limit (resources most) Q p (holding l)

-- `a` is held.
pub data Held (a : Resource) : List Resource → Type 0 where
  held_here : {rest : List Resource} → Held a (a ∷ rest)
  held_there : {g : Resource} {l : List Resource} → Held a l → Held a (g ∷ l)

Held-Has : {a : Resource} {l : List Resource} → Held a l → (rest : List Resource) × Has a l rest
Held-Has (held_here {rest}) = (rest, has_here)
Held-Has (held_there {g} h) = let (rest, h') = Held-Has h in (g ∷ rest, has_there h')

pub Held-holds : {a : Resource} {l : List Resource} → Held a l → holds (holding l) a ≡ true
Held-holds {a} h = Has-holds a (Held-Has h).1

pub room_at :
    (most : ℕ) (l : List Resource) → ltb (length l) most ≡ true → ltb (holding l).total most ≡ true
unfolding holding
room_at most l h = h

module _ {ℓ} {A : Type ℓ} {most limit : ℕ} {Q : A → Holdings → Type 0} where
  pub res_ret : {a : A} {l : List Resource} → Q a (holding l) → Tidy most limit Q (ret a) l
  res_ret q = record { safe = safe_ret q }

  pub res_print :
      {x : Line} {p : Prog A} {l : List Resource}
      → Tidy most limit Q p l
      → Tidy most limit Q (print x p) l
  res_print h = record { safe = safe_print h.safe }

  pub res_spent : {l : List Resource} → Tidy most limit Q spent l
  res_spent = record { safe = safe_spent }

  pub res_if :
      {b : Bool} {p q : Prog A} {l : List Resource}
      → (b ≡ true → Tidy most limit Q p l)
      → (b ≡ false → Tidy most limit Q q l)
      → Tidy most limit Q (if b then p else q) l
  res_if hp hq = record { safe = safe_if (λ e. (hp e).safe) (λ e. (hq e).safe) }

  pub res_check :
      {b : Bool} {p : Prog A} {l : List Resource}
      → b ≡ true
      → Tidy most limit Q p l
      → Tidy most limit Q (if b then p else fault) l
  res_check e hp = record { safe = Safe-check e hp.safe }

  -- The code tests a new descriptor, a new block and a new thread at once.
  pub res_socket :
      {t : SocketType} {p q : Reply → Prog A} {l : List Resource}
      → ltb (length l) most ≡ true
      → ((r : Reply) → Tidy most limit Q (p r) l)
      → ((r : Reply) → Tidy most limit Q (q r) (fd r.value ∷ l))
      → Tidy most limit Q (call (socket t) (λ r. if fails r.value then p r else q r)) l
  unfolding acquire holding
  res_socket room hp hq = record {
    safe =
        safe_call (room_at _ _ room) λ r _. safe_if (λ e. rw e (hp r).safe) (λ e. rw e (hq r).safe);
  }

  -- the same, where the range of the new descriptor matters
  pub res_socket_lawful :
      {t : SocketType} {p q : Reply → Prog A} {l : List Resource}
      → ltb (length l) most ≡ true
      → ((r : Reply) → Tidy most limit Q (p r) l)
      → ((r : Reply)
          → IsLawful limit (socket t) r
          → fails r.value ≡ false
          → Tidy most limit Q (q r) (fd r.value ∷ l))
      → Tidy most limit Q (call (socket t) (λ r. if fails r.value then p r else q r)) l
  unfolding acquire holding
  res_socket_lawful room hp hq = record {
    safe =
        safe_call (room_at _ _ room)
          λ r lawful. safe_if (λ e. rw e (hp r).safe) (λ e. rw e (hq r lawful e).safe);
  }

  pub res_accept :
      {x : ℤ} {p q : Reply → Prog A} {l : List Resource}
      → ltb (length l) most ≡ true
      → Held (fd x) l
      → ((r : Reply) → Tidy most limit Q (p r) l)
      → ((r : Reply) → Tidy most limit Q (q r) (fd r.value ∷ l))
      → Tidy most limit Q (call (accept x) (λ r. if fails r.value then p r else q r)) l
  unfolding acquire holding
  res_accept room h hp hq = record {
    safe =
        safe_call (rw (room_at _ _ room) (Held-holds h))
          λ r _. safe_if (λ e. rw e (hp r).safe) (λ e. rw e (hq r).safe);
  }

  pub res_malloc :
      {n : ℕ} {p q : Reply → Prog A} {l : List Resource}
      → ltb (length l) most ≡ true
      → ((r : Reply) → Tidy most limit Q (p r) l)
      → ((r : Reply) → Tidy most limit Q (q r) (block r.value ∷ l))
      → Tidy most limit Q (call (malloc n) (λ r. if is_zero r.value then p r else q r)) l
  unfolding acquire holding
  res_malloc room hp hq = record {
    safe =
        safe_call (room_at _ _ room) λ r _. safe_if (λ e. rw e (hp r).safe) (λ e. rw e (hq r).safe);
  }

  pub res_on :
      {x : ℤ} {q : Request} {k : Reply → Prog A} {l : List Resource}
      → Held (fd x) l
      → ((r : Reply) → IsLawful limit (on x q) r → Tidy most limit Q (k r) l)
      → Tidy most limit Q (call (on x q) k) l
  res_on h hk = record { safe = safe_call (Held-holds h) (λ r l. (hk r l).safe) }

  pub res_close :
      {x : ℤ} {k : Reply → Prog A} {l rest : List Resource}
      → Has (fd x) l rest
      → ((r : Reply) → Tidy most limit Q (k r) rest)
      → Tidy most limit Q (call (close x) k) l
  res_close {x} h hk = record {
    safe = safe_call (Has-holds (fd x) h) (λ r l. rw (release-Has (fd x) h) (hk r).safe);
  }

  pub res_close_first :
      {x : ℤ} {k : Reply → Prog A} {rest : List Resource}
      → ((r : Reply) → Tidy most limit Q (k r) rest)
      → Tidy most limit Q (call (close x) k) (fd x ∷ rest)
  res_close_first = res_close has_here

  pub res_close_second :
      {x : ℤ} {g : Resource} {k : Reply → Prog A} {rest : List Resource}
      → ((r : Reply) → Tidy most limit Q (k r) (g ∷ rest))
      → Tidy most limit Q (call (close x) k) (g ∷ fd x ∷ rest)
  res_close_second = res_close (has_there has_here)

  res_free :
      {x : ℤ} {k : Reply → Prog A} {l rest : List Resource}
      → Has (block x) l rest
      → ((r : Reply) → Tidy most limit Q (k r) rest)
      → Tidy most limit Q (call (free x) k) l
  res_free {x} h hk = record {
    safe = safe_call (Has-holds (block x) h) (λ r l. rw (release-Has (block x) h) (hk r).safe);
  }

  pub res_free_first :
      {x : ℤ} {k : Reply → Prog A} {rest : List Resource}
      → ((r : Reply) → Tidy most limit Q (k r) rest)
      → Tidy most limit Q (call (free x) k) (block x ∷ rest)
  res_free_first = res_free has_here

  -- The new thread takes over the last two resources.
  pub res_thread :
      {p x : ℤ} {a : SockAddr} {f g : Reply → Prog A} {rest : List Resource}
      → ((r : Reply) → Tidy most limit Q (f r) (fd x ∷ block p ∷ rest))
      → ((r : Reply) → Tidy most limit Q (g r) rest)
      → Tidy most limit Q
          (call (pthread_create p x a) (λ r. if nonzero r.value then f r else g r))
          (fd x ∷ block p ∷ rest)
  res_thread {p} {x} {rest} hf hg =
      let l : List Resource = fd x ∷ block p ∷ rest in
      let at : Has (block p) l (fd x ∷ rest) = has_there has_here in
      let here : Has (fd x) (fd x ∷ rest) rest = has_here in
      record {
        safe =
            safe_call (rw (Has-holds (block p) at, release-Has (block p) at, Has-holds (fd x) here))
              λ r _.
                safe_if (λ e. rw (is_zero-nonzero r.value, e) (hf r).safe)
                  (λ e.
                    rw
                      (
                        is_zero-nonzero r.value,
                        e,
                        release-Has (block p) at,
                        release-Has (fd x) here,
                      )
                      (hg r).safe);
      }

  pub res_ask :
      {q : Service} {k : Reply → Prog A} {l : List Resource}
      → ((r : Reply) → Tidy most limit Q (k r) l)
      → Tidy most limit Q (call (ask q) k) l
  res_ask hk = record { safe = safe_call refl (λ r l. (hk r).safe) }

  -- What a derivation says of each run.
  pub Tidy-Obeys :
      {p : Prog A} {l : List Resource}
      → Tidy most limit Q p l
      → (rs : List Reply) → AllLawful limit (run p rs).events
      → Obeys (resources most) (holding l) Q (run p rs)
  Tidy-Obeys h = Safe-Obeys (resources most) h.safe

module _ {ℓ κ} {A : Type ℓ} {B : Type κ} {most limit : ℕ} {Q : B → Holdings → Type 0} where
  -- a callee that holds the same resources afterwards
  pub res_bind :
      (p : Prog A) (f : A → Prog B) {l : List Resource}
      → Tidy most limit (λ _ b. b ≡ holding l) p l
      → ((a : A) → Tidy most limit Q (f a) l)
      → Tidy most limit Q (p >>= f) l
  res_bind p f h g = record { safe = Safe-bind f h.safe (λ a t e. rw e (g a).safe) }

pub ruleset resource_rules = (
  res_ret, res_print, res_spent, res_if, res_check, res_socket, res_accept, res_malloc, res_on,
  res_close_first, res_close_second, res_free_first, res_thread, res_ask, held_here, held_there,
  refl,
)
