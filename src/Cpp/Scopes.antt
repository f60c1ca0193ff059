-- ===== src/Cpp/Scopes.antt =====
-- Proof rules for methods, where what is held can be read off the object at any time: binds, handlers,
-- and the end of a scope with a local object.
use linux_system_programming.Base.{ℕ, fails, Bool-cases, inl, inr, ◌≡◌, refl, List, []}
use linux_system_programming.Posix.{Prog, ret, and_then}
use linux_system_programming.Spec.Resources.{Resource, holding}
use linux_system_programming.Spec.Resources.Rules.{Tidy, res_ret}
use linux_system_programming.Spec.Resources.Owners.{owned, owner_rules, res_bind_holding, res_assoc}
use linux_system_programming.Cpp.Method.{
  Exception, error_code, message, system_error, Tried, ok, threw, Method, ◌>>=◌, resume, handled,
  all_handled, try_catch, try_catch_all, scoped, local,
}
use linux_system_programming.Cpp.Socket.{Socket, destroy}

-- Thrown or not, what `p` leaves held is what its object holds.
abbrev pub Keeps :
    {S A : Type 0} → ℕ → ℕ → (S → List Resource) → Prog (Tried A × S) → List Resource → Type 0
Keeps most limit held p l = Tidy most limit (λ r b. b ≡ holding (held r.1)) p l

module _ {S : Type 0} {most limit : ℕ} (held : S → List Resource) where
  module _ {A : Type 0} where
    pub bind-Keeps :
        {B : Type 0} (m : Method S A) (f : A → Method S B) (s : S) (l : List Resource)
        → Keeps most limit held (m s) l
        → ((a : A) (s' : S) → Keeps most limit held (f a s') (held s'))
        → Keeps most limit held ((m >>= f) s) l
    bind-Keeps m f s l h k = res_bind_holding (λ r. held r.1) (m s) _ h (cases f k)
      where
        cases :
            {B : Type 0} (f : A → Method S B)
            → ((a : A) (s' : S) → Keeps most limit held (f a s') (held s'))
            → (r : Tried A × S) → Keeps most limit held (resume f r) (held r.1)
        cases f k (ok a, s') = k a s'
        cases f k (threw e, s') = res_ret refl

    pub try_catch-Keeps :
        (m : Method S A) (h : Exception → Method S A) (s : S) (l : List Resource)
        → Keeps most limit held (m s) l
        → ((e : Exception) (s' : S) → Keeps most limit held (h e s') (held s'))
        → Keeps most limit held (try_catch m h s) l
    try_catch-Keeps m h s l k c = res_bind_holding (λ r. held r.1) (m s) _ k (cases h c)
      where
        cases :
            (h : Exception → Method S A)
            → ((e : Exception) (s' : S) → Keeps most limit held (h e s') (held s'))
            → (r : Tried A × S) → Keeps most limit held (handled h r) (held r.1)
        cases h c (ok a, s') = res_ret refl
        cases h c (threw system_error, s') = res_ret refl
        cases h c (threw (error_code context code), s') = c (error_code context code) s'
        cases h c (threw (message args), s') = c (message args) s'

    pub try_catch_all-Keeps :
        (m : Method S A) (h : Exception → Method S A) (s : S) (l : List Resource)
        → Keeps most limit held (m s) l
        → ((e : Exception) (s' : S) → Keeps most limit held (h e s') (held s'))
        → Keeps most limit held (try_catch_all m h s) l
    try_catch_all-Keeps m h s l k c = res_bind_holding (λ r. held r.1) (m s) _ k (cases h c)
      where
        cases :
            (h : Exception → Method S A)
            → ((e : Exception) (s' : S) → Keeps most limit held (h e s') (held s'))
            → (r : Tried A × S) → Keeps most limit held (all_handled h r) (held r.1)
        cases h c (ok a, s') = res_ret refl
        cases h c (threw e, s') = c e s'

module _ {most limit : ℕ} where
  pub destroy-Tidy : (x : Socket) → Tidy most limit (λ _ b. b ≡ holding []) (destroy x) (owned x.fd)
  destroy-Tidy x = elim (Bool-cases (fails x.fd)) [
    | inl e ↦ rw (e, owned) (search owner_rules)
    | inr e ↦ rw (e, owned) (search owner_rules)
  ]

module _ {S T A : Type 0} {most limit : ℕ} where
  -- If the destructor releases what the local holds after `m`, thrown or not, nothing is left of it.
  pub scoped-Keeps :
      (around : S → List Resource) (held : Tried A × T → List Resource) (t : T)
      (destroy : T → Prog (Unit {0})) (m : Method T A) (s : S)
      → around s ≡ []
      → Tidy most limit (λ r b. b ≡ holding (held r)) (m t) []
      → ((r : Tried A × T) → Tidy most limit (λ _ b. b ≡ holding []) (destroy r.1) (held r))
      → Keeps most limit around (scoped t destroy (local m) s) []
  scoped-Keeps around held t destroy m s e h d =
      res_assoc (m t) (λ r. ret (r.0, (s, r.1)))
        (λ r. and_then (destroy r.1.1) (λ _. ret (r.0, r.1.0)))
        (res_bind_holding held (m t) _ h λ r.
          res_bind_holding (λ _. []) (destroy r.1) (λ _. ret (r.0, s)) (d r)
            λ _. res_ret (rw e refl))

  -- A local that holds nothing.
  pub scope_plain-Keeps :
      (held : S → List Resource) (t : T) (m : Method (S × T) A) (s : S) (l : List Resource)
      → Keeps most limit (λ (s : S × T). held s.0) (m (s, t)) l
      → Keeps most limit held (scoped t (λ _. ret tt) m s) l
  scope_plain-Keeps held t m s l h =
      res_bind_holding (λ r. held r.1.0) (m (s, t)) (λ r. ret (r.0, r.1.0)) h λ r. res_ret refl
