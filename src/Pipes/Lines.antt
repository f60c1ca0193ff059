-- ===== src/Pipes/Lines.antt =====
-- The text that goes through the pipes of example 3: who wrote it, and how it is cut into lines.
use linux_system_programming.Base.{
  ℕ, zero, suc, ℤ, ◌==ℤ◌, is_zero, ◌≡◌, refl, ap, ◌≤◌, Bool, true, false, not, ◌&&◌, ◌==◌, String,
  List, [], ◌∷◌, ◌++◌, length, drop, get_or, if◌then◌else◌, arith,
}
use linux_system_programming.Posix.{Arg, ask, dprintf, fprintf, Reply, Event, did, c_string}

-- A line of text: its only newline is at the end, and it has no zero.
abbrev pub is_line : List ℕ → Bool
is_line [] = false
is_line (c ∷ []) = c == 10
is_line (c ∷ d ∷ l) = not (c == 0) && not (c == 10) && is_line (d ∷ l)

abbrev pub AreLines : List (List ℕ) → Type 0
AreLines [] = Unit
AreLines (l ∷ ls) = (is_line l ≡ true) × AreLines ls

abbrev pub concat : List (List ℕ) → List ℕ
concat [] = []
concat (l ∷ ls) = l ++ concat ls

-- What a trace writes through `x` with `dprintf` or `fprintf`, where `format` makes the text.
abbrev pub written : (String → List Arg → List ℕ) → ℤ → List Event → List ℕ
written format x [] = []
written format x (did (ask (dprintf y f args)) r ∷ es) =
    if y ==ℤ x then format f args ++ written format x es else written format x es
written format x (did (ask (fprintf y f args)) r ∷ es) =
    if y ==ℤ x then format f args ++ written format x es else written format x es
written format x (_ ∷ es) = written format x es

-- The replies of a loop that is fed these lines by `fgets`, makes `each` calls for a line, and is
-- followed by `rest` calls: at the end of the text `fgets` gives NULL.
abbrev pub IsFed : ℕ → ℕ → List (List ℕ) → List Reply → Type 0
IsFed each rest ls [] = ⊥
IsFed each rest [] (r ∷ rs) = (is_zero r.value ≡ true) × (rest ≤ length rs)
IsFed each rest (l ∷ ls) (r ∷ rs) =
    (is_zero r.value ≡ false)
    × (r.bytes ≡ l)
    × (each ≤ length rs)
    × IsFed each rest ls (drop each rs)

is_line-tail : (c d : ℕ) (l : List ℕ) → is_line (c ∷ d ∷ l) ≡ true → is_line (d ∷ l) ≡ true
is_line-tail c d l e = ground arith

pub is_line-c_string : (l : List ℕ) → is_line l ≡ true → c_string l ≡ l
is_line-c_string [] e = refl
is_line-c_string (zero ∷ []) e = cc
is_line-c_string (suc c ∷ []) e = refl
is_line-c_string (zero ∷ d ∷ l) e = cc
is_line-c_string (suc c ∷ d ∷ l) e =
    ap (◌∷◌ (suc c)) (is_line-c_string (d ∷ l) (is_line-tail (suc c) d l e))

head_equal : (c d : ℕ) (x y : List ℕ) → c ∷ x ≡ d ∷ y → c ≡ d
head_equal c d x y e = ap (λ l. get_or l 0 0) e

line_unique :
    (a b x y : List ℕ) → is_line a ≡ true → is_line b ≡ true → a ++ x ≡ b ++ y → (a ≡ b) × (x ≡ y)
line_unique [] b x y p q e = absurd (ground arith)
line_unique (c ∷ l) [] x y p q e = absurd (ground arith)
line_unique (c ∷ []) (d ∷ []) x y p q e = (ap (λ n. n ∷ []) (head_equal c d x y e), ap (drop 1) e)
line_unique (c ∷ []) (d ∷ d' ∷ m) x y p q e =
    let h = head_equal c d x (d' ∷ m ++ y) e in absurd (ground arith)
line_unique (c ∷ c' ∷ l) (d ∷ []) x y p q e =
    let h = head_equal c d (c' ∷ l ++ x) y e in absurd (ground arith)
line_unique (c ∷ c' ∷ l) (d ∷ d' ∷ m) x y p q e =
    let h = head_equal c d _ _ e in
    let t =
      line_unique (c' ∷ l) (d' ∷ m) x y (is_line-tail c c' l p) (is_line-tail d d' m q)
        (ap (drop 1) e) in
    (cc, t.1)

-- A text is cut into lines in one way only.
pub lines_unique :
    (ls ms : List (List ℕ)) → AreLines ls → AreLines ms → concat ls ≡ concat ms → ls ≡ ms
lines_unique [] [] p q e = refl
lines_unique [] ([] ∷ ms) p q e = absurd (ground arith)
lines_unique [] ((c ∷ m) ∷ ms) p q e = cc
lines_unique ([] ∷ ls) ms p q e = absurd (ground arith)
lines_unique ((c ∷ l) ∷ ls) [] p q e = cc
lines_unique (l ∷ ls) (m ∷ ms) p q e =
    let t = line_unique l m (concat ls) (concat ms) p.0 q.0 e in
    let u = lines_unique ls ms p.1 q.1 t.1 in cc
