-- ===== src/Directory/Creating/Prefixes.antt =====
-- The directories that `make_prefixes` makes.
use linux_system_programming.Base.{
  ℕ, ◌+◌, suc, ◌<◌, ◌≡◌, refl, subst, sym, ap, ◌∙◌, arith, lt→ltb, Bool, true, false, ◌==◌, List,
  [], ◌∷◌, ◌++◌, map, length, length-append, append_assoc,
}
use linux_system_programming.Posix.{
  Call, ask, mkdir, Prog, Reply, Monitor, Safe, safe_ret, safe_call, safe_if, Safe-check,
  Safe-Obeys, AllLawful, run, Obeys,
}
use linux_system_programming.Socket.Dispatch.{same_text}
use linux_system_programming.Directory.Creating.{make_prefixes, slash, capacity}

-- a text's first byte as a prefix of its own, if it is a slash
abbrev first_too : Bool → ℕ → List (List ℕ) → List (List ℕ)
first_too true c ps = (c ∷ []) ∷ ps
first_too false c ps = ps

-- The prefixes of a text that end in a slash, the shortest first.
abbrev pub slash_prefixes : List ℕ → List (List ℕ)
slash_prefixes [] = []
slash_prefixes (c ∷ s) = first_too (c == slash) c (map (λ p. c ∷ p) (slash_prefixes s))

-- The directories that are still to be made: only the next one may be.
abbrev may_make : List (List ℕ) → Call → Bool
may_make (p ∷ ps) (ask (mkdir q mode)) = same_text p q
may_make _ _ = false

abbrev made : List (List ℕ) → Call → Reply → List (List ℕ)
made (p ∷ ps) c r = ps
made [] c r = []

abbrev pub making : Monitor
making = record { State = List (List ℕ); allows = may_make; next = made; excuses = λ s. ⊥ }

same_text_self : (s : List ℕ) → same_text s s ≡ true
same_text_self [] = refl
same_text_self (x ∷ s) = ground (arith, same_text_self s)

map_after :
    (path : List ℕ) (c : ℕ) (ps : List (List ℕ))
    → map (λ p. path ++ p) (map (λ p. c ∷ p) ps) ≡ map (λ p. (path ++ c ∷ []) ++ p) ps
map_after path c [] = refl
map_after path c (p ∷ ps) = rw (append_assoc path (c ∷ []) p, map_after path c ps) refl

slash_prefixes-slash :
    (path : List ℕ) (c : ℕ) (s : List ℕ)
    → (c == slash) ≡ true
    → map (λ q. path ++ q) (slash_prefixes (c ∷ s))
      ≡ (path ++ c ∷ []) ∷ map (λ q. (path ++ c ∷ []) ++ q) (slash_prefixes s)
slash_prefixes-slash path c s e =
    ap (λ b. map (λ q. path ++ q) (first_too b c (map (λ p. c ∷ p) (slash_prefixes s)))) e
    ∙ ap (λ ps. (path ++ c ∷ []) ∷ ps) (map_after path c (slash_prefixes s))

slash_prefixes-other :
    (path : List ℕ) (c : ℕ) (s : List ℕ)
    → (c == slash) ≡ false
    → map (λ q. path ++ q) (slash_prefixes (c ∷ s))
      ≡ map (λ q. (path ++ c ∷ []) ++ q) (slash_prefixes s)
slash_prefixes-other path c s e =
    ap (λ b. map (λ q. path ++ q) (first_too b c (map (λ p. c ∷ p) (slash_prefixes s)))) e
    ∙ map_after path c (slash_prefixes s)

map_id : (ps : List (List ℕ)) → map (λ p. [] ++ p) ps ≡ ps
map_id [] = refl
map_id (p ∷ ps) = ap (λ qs. p ∷ qs) (map_id ps)

module _ {limit : ℕ} where
  Safe-at :
      {p : Prog (Unit {0})} {ps qs : List (List ℕ)}
      → ps ≡ qs
      → Safe limit making (λ _ left. left ≡ []) p qs
      → Safe limit making (λ _ left. left ≡ []) p ps
  Safe-at {p} e h = subst (λ ps. Safe limit making (λ _ left. left ≡ []) p ps) (sym e) h

  make_prefixes-Safe :
      (p path : List ℕ)
      → length path + length p < capacity
      → Safe limit making
          (λ _ left. left ≡ [])
          (make_prefixes p path)
          (map (λ q. path ++ q) (slash_prefixes p))
  unfolding make_prefixes
  make_prefixes-Safe [] path lt = safe_ret refl
  make_prefixes-Safe (c ∷ p) path lt =
      let rest =
        make_prefixes-Safe p (path ++ c ∷ []) (rw (length-append path (c ∷ [])) (omega arith)) in
      Safe-check (lt→ltb (suc (length path)) capacity (omega arith)) (
        safe_if
          (λ e.
            Safe-at (slash_prefixes-slash path c p e)
              (safe_call (same_text_self (path ++ c ∷ [])) (λ r _. rest)))
          (λ e. Safe-at (slash_prefixes-other path c p e) rest))

-- For a text of less than 256 bytes, `make_prefixes` makes exactly the directories named by the
-- prefixes of the text that end in a slash, each once and the shortest first, makes no other call, and
-- does not write outside its buffers.
pub make_prefixes-making :
    (nested : List ℕ) (limit : ℕ) (rs : List Reply)
    → length nested < capacity
    → AllLawful limit (run (make_prefixes nested []) rs).events
    → Obeys making (slash_prefixes nested) (λ _ left. left ≡ []) (run (make_prefixes nested []) rs)
make_prefixes-making nested limit rs lt l =
    Safe-Obeys making
      (Safe-at (sym (map_id (slash_prefixes nested))) (make_prefixes-Safe nested [] (omega arith)))
      rs l
