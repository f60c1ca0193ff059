-- ===== src/Directory/Listing/Tally.antt =====
-- The counts that the listing prints.
use linux_system_programming.Base.{
  ℕ, zero, suc, ℤ, is_zero, ◌≡◌, refl, sym, subst, ◌≤◌, ◌+◌, arith, lt→ltb, Bool, true, false, not,
  ◌==◌, ◌&&◌, ◌||◌, List, [], ◌∷◌,
}
use linux_system_programming.Posix.{
  Prog, Libc, Call, ask, readdir, Reply, Monitor, Safe, safe_ret, safe_call, safe_if, safe_print,
  safe_spent, Safe-check, Safe-Obeys, AllLawful, run, Obeys,
}
use linux_system_programming.Directory.Listing.{list_entries, hidden, int_max}

-- the names that a listing shows: "." and "..", and those that do not begin with a dot
abbrev pub shown : List ℕ → Bool
shown [] = true
shown (c ∷ []) = true
shown (c ∷ d ∷ []) = not (c == 46) || d == 46
shown (c ∷ d ∷ e ∷ rest) = not (c == 46)

shown-hidden : (name : List ℕ) → hidden name ≡ not (shown name)
shown-hidden [] = refl
shown-hidden (c ∷ []) = ground arith
shown-hidden (c ∷ d ∷ []) = ground arith
shown-hidden (c ∷ d ∷ e ∷ rest) = ground arith

-- an entry that is counted or not, of the types asked for in turn
abbrev counted : Bool → Bool → Bool → ℕ × ℕ → ℕ × ℕ
counted false is_dir is_reg s = s
counted true true is_reg (files, dirs) = (files, suc dirs)
counted true false true (files, dirs) = (suc files, dirs)
counted true false false s = s

counted-cong :
    {b b' d d' f f' : Bool} (s : ℕ × ℕ)
    → b ≡ b'
    → d ≡ d'
    → f ≡ f'
    → counted b d f s ≡ counted b' d' f' s
counted-cong s e d f = rw (e, d, f) refl

unseen_last : (name : List ℕ) (z : Bool) → z ≡ true → (not z && shown name) ≡ false
unseen_last name z e = ground arith

unseen_hidden : (name : List ℕ) (z : Bool) → hidden name ≡ true → (not z && shown name) ≡ false
unseen_hidden name z h = ground (arith, shown-hidden name)

seen : (name : List ℕ) (z : Bool) → z ≡ false → hidden name ≡ false → (not z && shown name) ≡ true
seen name z e h = ground (arith, shown-hidden name)

-- The files and the directories among the entries read so far that are shown.
module _ (libc : Libc) where
  abbrev tally_entry : ℕ × ℕ → Reply → ℕ × ℕ
  tally_entry s r =
      counted (not (is_zero r.value) && shown r.bytes) (r.status.d_type == libc.dt_dir)
        (r.status.d_type == libc.dt_reg) s

  abbrev tally_next : ℕ × ℕ → Call → Reply → ℕ × ℕ
  tally_next s (ask (readdir dir)) r = tally_entry s r
  tally_next s _ r = s

  abbrev pub tally : Monitor
  tally = record { State = ℕ × ℕ; allows = λ s c. true; next = tally_next; excuses = λ s. ⊥ }

  module _ {limit : ℕ} where
    -- in a state that is known by an equation
    Safe-tally :
        {p : Prog (ℕ × ℕ)} {s t : ℕ × ℕ}
        → s ≡ t
        → Safe limit tally (λ r s. r ≡ s) p t
        → Safe limit tally (λ r s. r ≡ s) p s
    Safe-tally {p} e h = subst (λ s. Safe limit tally (λ r s. r ≡ s) p s) (sym e) h

    list_entries-Safe :
        (rounds : ℕ) (dir : ℤ) (files dirs : ℕ)
        → files + dirs + rounds ≤ int_max
        → Safe limit tally (λ r s. r ≡ s) (list_entries libc rounds dir files dirs) (files, dirs)
    unfolding list_entries
    list_entries-Safe zero dir files dirs le = safe_spent
    list_entries-Safe (suc rounds) dir files dirs le = safe_call refl λ r _.
        let now : ℕ × ℕ = (files, dirs) in
        safe_if
          (λ e. Safe-tally (counted-cong now (unseen_last r.bytes _ e) refl refl) (safe_ret refl))
          (λ e.
            safe_if
              (λ h.
                Safe-tally (counted-cong now (unseen_hidden r.bytes _ h) refl refl)
                  (list_entries-Safe rounds dir files dirs (omega arith)))
              (λ h. safe_print (
                let s = seen r.bytes _ e h in
                safe_if
                  (λ d. Safe-tally (counted-cong now s d refl) (
                    safe_print (
                      Safe-check (lt→ltb dirs int_max (omega arith))
                        (list_entries-Safe rounds dir files (suc dirs) (omega arith)))))
                  (λ d.
                    safe_if
                      (λ f. Safe-tally (counted-cong now s d f) (
                        safe_print (
                          Safe-check (lt→ltb files int_max (omega arith))
                            (list_entries-Safe rounds dir (suc files) dirs (omega arith)))))
                      (λ f.
                        Safe-tally (counted-cong now s d f)
                          (safe_print (list_entries-Safe rounds dir files dirs (omega arith))))))))

-- With at most 2^31 - 1 rounds, whatever the directory's entries are, the loop of the listing counts
-- without overflow, and where it returns, its counts are the numbers of the regular files and of the
-- directories among the entries read that are "." or ".." or do not begin with a dot.
pub list_entries-tally :
    (libc : Libc) (limit rounds : ℕ) (dir : ℤ) (rs : List Reply)
    → rounds ≤ int_max
    → AllLawful limit (run (list_entries libc rounds dir 0 0) rs).events
    → Obeys (tally libc) (0, 0) (λ r s. r ≡ s) (run (list_entries libc rounds dir 0 0) rs)
list_entries-tally libc limit rounds dir rs le l =
    Safe-Obeys (tally libc) (list_entries-Safe libc rounds dir 0 0 (omega arith)) rs l
