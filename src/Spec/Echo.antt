-- ===== src/Spec/Echo.antt =====
-- Echoing: what was received is sent back, the same bytes to where they came from, before anything
-- else is received, accepted or closed.
pub mod Rules
use linux_system_programming.Base.{
  ℕ, ℤ, positive, fails, ◌==ℤ◌, ==ℤ_self, Bool, true, false, ◌&&◌, ◌≡◌, refl, List, [], ◌∷◌,
  if◌then◌else◌, ◌==◌, arith,
}
use linux_system_programming.Posix.{
  SockAddr, Request, recv, send, recvfrom, sendto, Call, accept, on, close, Reply, Monitor,
}

-- what is owed to the peer: nothing, bytes on a connection, or a datagram to an address
pub data Debt : Type 0 where
  settled : Debt
  owes : ℤ → List ℕ → Debt
  owes_to : ℤ → List ℕ → SockAddr → Debt

abbrev pub same_bytes : List ℕ → List ℕ → Bool
same_bytes [] [] = true
same_bytes (x ∷ xs) (y ∷ ys) = x == y && same_bytes xs ys
same_bytes _ _ = false

abbrev same_addr : SockAddr → SockAddr → Bool
same_addr a b = a.port == b.port && a.host == b.host

abbrev is_settled : Debt → Bool
is_settled settled = true
is_settled _ = false

-- A send pays exactly what is owed; all else on a connection waits until nothing is owed.
abbrev pays : Debt → ℤ → Request → Bool
pays d x (recv size) = is_settled d
pays d x (recvfrom size) = is_settled d
pays (owes y owed) x (send bytes) = x ==ℤ y && same_bytes bytes owed
pays (owes_to y owed a) x (sendto bytes b) = x ==ℤ y && same_bytes bytes owed && same_addr b a
pays _ x (send bytes) = false
pays _ x (sendto bytes b) = false
pays _ x _ = true

abbrev allows : Debt → Call → Bool
allows d (on x q) = pays d x q
allows d (accept x) = is_settled d
allows d (close x) = is_settled d
allows d _ = true

-- A connection owes what a read with a positive result brought; a datagram is owed unless the call
-- failed. Trying to send, once, settles.
abbrev after : Debt → ℤ → Request → Reply → Debt
after d x (recv size) r = if positive r.value then owes x r.bytes else settled
after d x (recvfrom size) r = if fails r.value then settled else owes_to x r.bytes r.from
after d x (send bytes) r = settled
after d x (sendto bytes a) r = settled
after d x _ r = d

abbrev next : Debt → Call → Reply → Debt
next d (on x q) r = after d x q r
next d _ r = d

abbrev pub echo : Monitor
echo = record { State = Debt; allows = allows; next = next; excuses = λ s. ⊥ }

pub same_bytes_self : (l : List ℕ) → same_bytes l l ≡ true
same_bytes_self [] = refl
same_bytes_self (x ∷ l) = ground (arith, same_bytes_self l)

pub pays-send : (x : ℤ) (l : List ℕ) → pays (owes x l) x (send l) ≡ true
pays-send x l = rw (==ℤ_self x, same_bytes_self l)

pub pays-sendto : (x : ℤ) (l : List ℕ) (a : SockAddr) → pays (owes_to x l a) x (sendto l a) ≡ true
pays-sendto x l a = rw (==ℤ_self x, same_bytes_self l) (ground arith)
