-- ===== src/Memory/Copies.antt =====
-- What the copies of memory_management.c change in a buffer.
use linux_system_programming.Base.{
  ℕ, zero, suc, ◌+◌, ◌-◌, ◌≤◌, ◌<◌, ◌≡◌, ◌⊎◌, inl, inr, refl, ap, ◌∙◌, arith, leb, ltb, Bool-cases,
  codes, ltb→lt, true, false, ◌&&◌, if◌then◌else◌, List, [], ◌∷◌, ◌++◌, length, length-append,
  length-drop_add, take, drop, get_or,
}
use linux_system_programming.Posix.{Reply, run, returned, faulted}
use linux_system_programming.Memory.{copy_to, modify_mapping}

length-take : (xs : List ℕ) (n : ℕ) → n ≤ length xs → length (take n xs) ≡ n
length-take xs zero le = refl
length-take [] (suc n) le = absurd (omega arith)
length-take (x ∷ xs) (suc n) le = ap suc (length-take xs n (omega arith))

get_or-take : (xs : List ℕ) (n i d : ℕ) → i < n → get_or (take n xs) i d ≡ get_or xs i d
get_or-take xs zero i d lt = absurd (omega arith)
get_or-take [] (suc n) i d lt = refl
get_or-take (x ∷ xs) (suc n) zero d lt = refl
get_or-take (x ∷ xs) (suc n) (suc i) d lt = get_or-take xs n i d (omega arith)

get_or-append_left :
    (xs ys : List ℕ) (i d : ℕ) → i < length xs → get_or (xs ++ ys) i d ≡ get_or xs i d
get_or-append_left [] ys i d lt = absurd (omega arith)
get_or-append_left (x ∷ xs) ys zero d lt = refl
get_or-append_left (x ∷ xs) ys (suc i) d lt = get_or-append_left xs ys i d (omega arith)

get_or-append_right :
    (xs ys : List ℕ) (i j d : ℕ) → i ≡ length xs + j → get_or (xs ++ ys) i d ≡ get_or ys j d
get_or-append_right [] ys i j d e = ap (λ k. get_or ys k d) (omega (arith, e))
get_or-append_right (x ∷ xs) ys zero j d e = absurd (omega (arith, e))
get_or-append_right (x ∷ xs) ys (suc i) j d e = get_or-append_right xs ys i j d (omega (arith, e))

get_or-drop : (xs : List ℕ) (n i j d : ℕ) → j ≡ n + i → get_or (drop n xs) i d ≡ get_or xs j d
get_or-drop xs zero i j d e = ap (λ k. get_or xs k d) (omega (arith, e))
get_or-drop [] (suc n) i j d e = refl
get_or-drop (x ∷ xs) (suc n) i zero d e = absurd (omega (arith, e))
get_or-drop (x ∷ xs) (suc n) i (suc j) d e = get_or-drop xs n i j d (omega (arith, e))

leb→le : (a b : ℕ) → leb a b ≡ true → a ≤ b
leb→le a b h = ground arith

lt_of_not : (a b : ℕ) → leb a b ≡ false → b < a
lt_of_not a b h = ground arith

le_of_not : (a b : ℕ) → ltb a b ≡ false → b ≤ a
le_of_not a b h = ground arith

-- `bytes` in the place of as many elements of `buffer`
abbrev spliced : List ℕ → ℕ → List ℕ → List ℕ
spliced buffer at bytes = take at buffer ++ (bytes ++ drop (at + length bytes) buffer)

module _ (buffer : List ℕ) (at : ℕ) (bytes : List ℕ) (le : at + length bytes ≤ length buffer) where
  length-spliced : length (spliced buffer at bytes) ≡ length buffer
  length-spliced = omega (
    arith,
    le,
    length-append {0} (take at buffer) (bytes ++ drop (at + length bytes) buffer),
    length-append {0} bytes (drop (at + length bytes) buffer),
    length-take buffer at (omega arith),
    length-drop_add {0} buffer (at + length bytes) le,
  )

  spliced-before : (i d : ℕ) → i < at → get_or (spliced buffer at bytes) i d ≡ get_or buffer i d
  spliced-before i d lt =
      get_or-append_left (take at buffer) _ i d
        (omega (arith, length-take buffer at (omega (arith, le))))
      ∙ get_or-take buffer at i d lt

  spliced-within :
      (i j d : ℕ)
      → i ≡ at + j
      → j < length bytes
      → get_or (spliced buffer at bytes) i d ≡ get_or bytes j d
  spliced-within i j d e lt =
      get_or-append_right (take at buffer) _ i j d
        (omega (arith, e, length-take buffer at (omega (arith, le))))
      ∙ get_or-append_left bytes _ j d lt

  spliced-after :
      (i d : ℕ) → at + length bytes ≤ i → get_or (spliced buffer at bytes) i d ≡ get_or buffer i d
  spliced-after i d ge =
      get_or-append_right (take at buffer) _ i (i - at) d
        (omega (arith, length-take buffer at (omega (arith, le))))
      ∙ get_or-append_right bytes _ (i - at) (i - at - length bytes) d (omega arith)
      ∙ get_or-drop buffer (at + length bytes) (i - at - length bytes) i d (omega arith)

-- What stands at place `i` after `bytes` was copied to `at`.
abbrev pub after_copy : List ℕ → ℕ → List ℕ → ℕ → ℕ → ℕ
after_copy buffer at bytes i d =
    if leb at i && ltb i (at + length bytes) then get_or bytes (i - at) d else get_or buffer i d

spliced-pointwise :
    (buffer : List ℕ) (at : ℕ) (bytes : List ℕ)
    → at + length bytes ≤ length buffer
    → (i d : ℕ) → get_or (spliced buffer at bytes) i d ≡ after_copy buffer at bytes i d
spliced-pointwise buffer at bytes le i d = elim (Bool-cases (leb at i)) [
  | inl e ↦
      let ge = leb→le at i e in
      elim (Bool-cases (ltb i (at + length bytes))) [
        | inl e' ↦
            let lt = ltb→lt i (at + length bytes) e' in
            rw (e, e') (spliced-within buffer at bytes le i (i - at) d (omega arith) (omega arith))
        | inr e' ↦
            rw (e, e') (spliced-after buffer at bytes le i d (le_of_not i (at + length bytes) e'))
      ]
  | inr e ↦ rw e (spliced-before buffer at bytes le i d (lt_of_not at i e))
]

-- Where the mapping has room for them, the bytes of "EXAMPLE" stand from place 20 on after the edit, and all
-- others stand where they stood; the length is unchanged. A mapping of fewer than 27 bytes is written
-- beyond its end.
pub modify_mapping-pointwise :
    (mapped : List ℕ) (rs : List Reply)
    → (((result : List ℕ) × (run (modify_mapping mapped) rs).outcome ≡ returned result
          × length result ≡ length mapped
          × ((i d : ℕ) → get_or result i d ≡ after_copy mapped 20 (codes "EXAMPLE") i d))
        × (27 ≤ length mapped))
      ⊎ (((run (modify_mapping mapped) rs).outcome ≡ faulted) × (length mapped < 27))
unfolding modify_mapping copy_to run
modify_mapping-pointwise mapped rs = elim (Bool-cases (leb 27 (length mapped))) [
  | inl e ↦
      let le = leb→le 27 (length mapped) e in
      inl (
        (
          spliced mapped 20 (codes "EXAMPLE"),
          rw e refl,
          length-spliced mapped 20 (codes "EXAMPLE") le,
          spliced-pointwise mapped 20 (codes "EXAMPLE") le,
        ),
        le,
      )
  | inr e ↦ inr (rw e refl, ground arith)
]
