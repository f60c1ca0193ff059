-- ===== src/Spec/Resources.antt =====
-- Resources: a call names only a descriptor or a block of memory that the function holds. What is
-- held is counted in a bag, so a second release is refused unless the system gave the same one twice.
pub mod Rules
pub mod Owners
pub mod Places
use linux_system_programming.Base.{
  ℕ, zero, suc, pred, ℤ, fails, is_zero, ◌==ℤ◌, ==ℤ_self, Bool, true, false, ◌&&◌, ◌≡◌, refl,
  fun_ext, List, [], ◌∷◌, length, ltb, ap, if◌then◌else◌, arith,
}
use linux_system_programming.Posix.{
  Call, socket, accept, on, close, malloc, free, pthread_create, start_thread, ask, Reply, Monitor,
}

pub data Resource : Type 0 where
  fd : ℤ → Resource
  block : ℤ → Resource

infix 50 ◌==◌
abbrev ◌==◌ : Resource → Resource → Bool
fd a == fd b = a ==ℤ b
block a == block b = a ==ℤ b
_ == _ = false

==_self : (x : Resource) → (x == x) ≡ true
==_self (fd a) = ==ℤ_self a
==_self (block a) = ==ℤ_self a

abbrev pub Bag : Type 0
Bag = Resource → ℕ

unfoldable pub empty : Bag
empty = λ x. 0

unfoldable pub add : Resource → Bag → Bag
add a b = λ x. if x == a then suc (b x) else b x

unfoldable pub remove : Resource → Bag → Bag
remove a b = λ x. if x == a then pred (b x) else b x

-- What a function holds, and how much that is.
pub record Holdings : Type 0 where
  pub held : Bag
  pub total : ℕ

unfoldable pub acquire : Resource → Holdings → Holdings
acquire a s = record { held = add a s.held; total = suc s.total }

unfoldable pub release : Resource → Holdings → Holdings
release a s = record { held = remove a s.held; total = pred s.total }

abbrev pub holds : Holdings → Resource → Bool
holds s a = elim (s.held a) [ zero ↦ false | suc n ↦ true ]

-- With `most` resources held, no other may be asked for. A thread is started with a block and a
-- descriptor that the caller holds.
abbrev allows : ℕ → Holdings → Call → Bool
allows most s (socket t) = ltb s.total most
allows most s (accept x) = ltb s.total most && holds s (fd x)
allows most s (on x q) = holds s (fd x)
allows most s (close x) = holds s (fd x)
allows most s (malloc n) = ltb s.total most
allows most s (free p) = holds s (block p)
allows most s (pthread_create p x a) = holds s (block p) && holds (release (block p) s) (fd x)
allows most s (start_thread x a) = holds s (fd x)
allows most s (ask q) = true

-- A thread that was started owns what it was handed.
abbrev next : Holdings → Call → Reply → Holdings
next s (socket t) r = if fails r.value then s else acquire (fd r.value) s
next s (accept x) r = if fails r.value then s else acquire (fd r.value) s
next s (close x) r = release (fd x) s
next s (malloc n) r = if is_zero r.value then s else acquire (block r.value) s
next s (free p) r = release (block p) s
next s (pthread_create p x a) r =
    if is_zero r.value then release (fd x) (release (block p) s) else s
next s (start_thread x a) r = if is_zero r.value then release (fd x) s else s
next s _ r = s

abbrev pub resources : ℕ → Monitor
resources most = record { State = Holdings; allows = allows most; next = next; excuses = λ s. ⊥ }

-- What a list holds. The proofs write a list; the bag forgets its order.
abbrev bag : List Resource → Bag
bag [] = empty
bag (a ∷ l) = add a (bag l)

unfoldable pub holding : List Resource → Holdings
holding l = record { held = bag l; total = length l }

-- `l` is `rest` and one more `a`, at any place.
pub data Has (a : Resource) : List Resource → List Resource → Type 0 where
  has_here : {rest : List Resource} → Has a (a ∷ rest) rest
  has_there : {g : Resource} {l rest : List Resource} → Has a l rest → Has a (g ∷ l) (g ∷ rest)

module _ (a : Resource) where
  pub Has-count :
      {l rest : List Resource} (x : Resource) → Has a l rest → bag l x ≡ add a (bag rest) x
  unfolding add
  Has-count x has_here = refl
  Has-count x (has_there h) = ground (arith, Has-count x h)

  pub Has-length : {l rest : List Resource} → Has a l rest → length l ≡ suc (length rest)
  Has-length has_here = refl
  Has-length (has_there h) = ap suc (Has-length h)

  pub Has-holds : {l rest : List Resource} → Has a l rest → holds (holding l) a ≡ true
  unfolding add holding
  Has-holds h = ground (arith, Has-count a h, ==_self a)

  remove-Has : {l rest : List Resource} → Has a l rest → remove a (bag l) ≡ bag rest
  unfolding add remove
  remove-Has h = fun_ext λ x. ground (arith, Has-count x h)

  pub release-Has : {l rest : List Resource} → Has a l rest → release a (holding l) ≡ holding rest
  unfolding release holding
  release-Has h = rw (remove-Has h, Has-length h)
