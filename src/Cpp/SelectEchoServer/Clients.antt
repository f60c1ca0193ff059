-- ===== src/Cpp/SelectEchoServer/Clients.antt =====
-- The vector of clients: what it holds, its size, and the bound on its descriptors.
use linux_system_programming.Base.{
  arith, ℕ, ℤ, fails, Bool-cases, inl, inr, Bool, true, false, ◌≡◌, refl, ◌≤◌, List, [], ◌∷◌, ◌++◌,
  map, length, length-append, append_assoc,
}
use linux_system_programming.Posix.{fits_set}
use linux_system_programming.Spec.Resources.{Resource, fd}
use linux_system_programming.Spec.Resources.Owners.{owned}
use linux_system_programming.Socket.SelectServer.{mark, all_fit}
use linux_system_programming.Cpp.Socket.{Socket}

abbrev pub owned_all : List Socket → List Resource
owned_all [] = []
owned_all (c ∷ cs) = owned c.fd ++ owned_all cs

pub owned_all-append : (cs ds : List Socket) → owned_all (cs ++ ds) ≡ owned_all cs ++ owned_all ds
owned_all-append [] ds = refl
owned_all-append (c ∷ cs) ds =
    rw (owned_all-append cs ds, append_assoc (owned c.fd) (owned_all cs) (owned_all ds))

length-owned : (c : Socket) → length (owned c.fd) ≤ 1
length-owned c = elim (Bool-cases (fails c.fd)) [
  | inl e ↦ rw (e, owned) (omega arith)
  | inr e ↦ rw (e, owned) (omega arith)
]

pub length-owned_all : (cs : List Socket) → length (owned_all cs) ≤ length cs
length-owned_all [] = omega arith
length-owned_all (c ∷ cs) =
    omega (arith, length-owned c, length-owned_all cs, length-append (owned c.fd) (owned_all cs))

-- An open client can be put into a set of `size`.
abbrev pub Fits : ℕ → Socket → Type 0
Fits size c = fails c.fd ≡ false → fits_set size c.fd ≡ true

abbrev pub AllFit : ℕ → List Socket → Type 0
AllFit size [] = Unit
AllFit size (c ∷ cs) = Fits size c × AllFit size cs

pub AllFit-append :
    (size : ℕ) (cs ds : List Socket) → AllFit size cs → AllFit size ds → AllFit size (cs ++ ds)
AllFit-append size [] ds h k = k
AllFit-append size (c ∷ cs) ds h k = (h.0, AllFit-append size cs ds h.1 k)

either :
    (size : ℕ) (b : Bool) (p q : List ℤ × ℤ)
    → all_fit size p.0 ≡ true
    → (b ≡ false → all_fit size q.0 ≡ true)
    → all_fit size (elim b as (λ _. List ℤ × ℤ) [ true ↦ p | false ↦ q ]).0 ≡ true
either size true p q h k = h
either size false p q h k = k refl

pub all_fit-mark :
    (size : ℕ) (cs : List Socket) (read_set : List ℤ) (max_fd : ℤ)
    → AllFit size cs
    → all_fit size read_set ≡ true
    → all_fit size (mark (map (λ (c : Socket). c.fd) cs) read_set max_fd).0 ≡ true
all_fit-mark size [] read_set max_fd h k = k
all_fit-mark size (c ∷ cs) read_set max_fd h k =
    either size (fails c.fd) _ _ (all_fit-mark size cs read_set max_fd h.1 k)
      (λ e. all_fit-mark size cs (c.fd ∷ read_set) _ h.1 (rw (h.0 e) k))

pub owned_all-push :
    (cs : List Socket) (c : Socket)
    → fails c.fd ≡ false
    → owned_all (cs ++ c ∷ []) ≡ owned_all cs ++ fd c.fd ∷ []
owned_all-push cs c e = rw (owned_all-append cs (c ∷ []), e, owned) refl
