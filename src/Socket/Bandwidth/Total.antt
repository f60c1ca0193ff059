-- ===== src/Socket/Bandwidth/Total.antt =====
-- The totals that the two ends print.
use linux_system_programming.Base.{
  ℕ, zero, suc, ℤ, pos, negsuc, fails, positive, true, false, neg_part, ◌≤◌, pos_part, ◌+◌, ◌%◌,
  ◌^◌, ◌≡◌, refl, List, arith,
}
use linux_system_programming.Posix.{
  Reply, Safe, safe_call, safe_if, safe_ret, safe_print, safe_spent, AllLawful, run, Obeys,
  Safe-Obeys,
}
use linux_system_programming.Spec.Meter.{meter}
use linux_system_programming.Socket.Bandwidth.{count, receive_loop, send_loop}

-- the counter of a loop against the meter
abbrev pub IsTotal : ℕ → ℕ → Type 0
IsTotal bytes total = bytes ≡ total % 2 ^ 64

IsTotal-count :
    (bytes total : ℕ) (n : ℤ)
    → neg_part n ≤ 1
    → fails n ≡ false
    → IsTotal bytes total
    → IsTotal (count bytes n) (total + pos_part n)
IsTotal-count bytes total (pos n) m f h = omega arith
IsTotal-count bytes total (negsuc zero) m f h = cc
IsTotal-count bytes total (negsuc (suc n)) m f h = absurd (omega arith)

fails-positive : (n : ℤ) → positive n ≡ true → fails n ≡ false
fails-positive (pos n) h = ground arith
fails-positive (negsuc n) h = ground arith

module _ {limit : ℕ} where
  receive_loop-IsTotal_from :
      (rounds : ℕ) (x start : ℤ) (bytes total : ℕ)
      → IsTotal bytes total
      → Safe limit meter IsTotal (receive_loop rounds x start bytes) total
  unfolding receive_loop
  receive_loop-IsTotal_from zero x start bytes total h = safe_spent
  receive_loop-IsTotal_from (suc rounds) x start bytes total h = safe_call refl λ now _.
      safe_if
        (λ _. safe_call refl λ r l.
          safe_if
            (λ e. rw e (
              receive_loop-IsTotal_from rounds x start _ _
                (IsTotal-count bytes total r.value l.2 (fails-positive r.value e) h)))
            (λ e. rw e (safe_ret h)))
        (λ _. safe_ret h)

  send_loop-IsTotal_from :
      (rounds : ℕ) (x : ℤ) (buffer : List ℕ) (duration start : ℤ) (bytes total : ℕ)
      → IsTotal bytes total
      → Safe limit meter IsTotal (send_loop rounds x buffer duration start bytes) total
  unfolding send_loop
  send_loop-IsTotal_from zero x buffer duration start bytes total h = safe_spent
  send_loop-IsTotal_from (suc rounds) x buffer duration start bytes total h =
      safe_call refl λ now _.
        safe_if
          (λ _. safe_call refl λ r l.
            safe_if (λ e. rw e (safe_print (safe_ret h)))
              (λ e. rw e (
                send_loop-IsTotal_from rounds x buffer duration start _ _
                  (IsTotal-count bytes total r.value l.1 e h))))
          (λ _. safe_ret h)

-- Against any lawful history of replies, where `receive_loop` returns, its total is the number of bytes
-- that the calls of `recv` reported, modulo 2^64.
pub receive_loop-IsTotal :
    (limit : ℕ) (rounds : ℕ) (x start : ℤ) (rs : List Reply)
    → AllLawful limit (run (receive_loop rounds x start 0) rs).events
    → Obeys meter 0 IsTotal (run (receive_loop rounds x start 0) rs)
receive_loop-IsTotal limit rounds x start rs l =
    Safe-Obeys meter (receive_loop-IsTotal_from rounds x start 0 0 refl) rs l

-- Against any lawful history of replies, where `send_loop` returns, its total is the number of bytes
-- that the calls of `send` reported as taken, modulo 2^64.
pub send_loop-IsTotal :
    (limit : ℕ) (rounds : ℕ) (x : ℤ) (buffer : List ℕ) (duration start : ℤ) (rs : List Reply)
    → AllLawful limit (run (send_loop rounds x buffer duration start 0) rs).events
    → Obeys meter 0 IsTotal (run (send_loop rounds x buffer duration start 0) rs)
send_loop-IsTotal limit rounds x buffer duration start rs l =
    Safe-Obeys meter (send_loop-IsTotal_from rounds x buffer duration start 0 0 refl) rs l
