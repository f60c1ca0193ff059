-- ===== src/Posix/Buffers.antt =====
-- Bounds of the programs' buffers after a lawful read.
use linux_system_programming.Base.{
  ℕ, zero, suc, ℤ, pos, negsuc, fails, ◌≤◌, ◌<◌, ◌≡◌, true, false, List, length, drop,
  length-append, length-drop_add, lt→ltb, pos_part, neg_part, arith, refl, ap,
}
use linux_system_programming.Posix.Calls.{Reply, IsRead}
use linux_system_programming.Posix.Programs.{fill, in_range, zeros, fits_set}

-- A read of at most the buffer's size leaves its length alone.
pub length-fill :
    (buffer bytes : List ℕ)
    → length bytes ≤ length buffer
    → length (fill buffer bytes) ≡ length buffer
length-fill buffer bytes h =
    omega (
      arith,
      length-append bytes (drop (length bytes) buffer),
      length-drop_add buffer (length bytes),
    )

in_range-count :
    (n : ℤ) (buffer : List ℕ)
    → fails n ≡ false
    → neg_part n ≤ 1
    → pos_part n < length buffer
    → in_range n buffer ≡ true
in_range-count (pos n) buffer f m h = lt→ltb n (length buffer) h
in_range-count (negsuc zero) buffer f m h = cc
in_range-count (negsuc (suc n)) buffer f m h = absurd (omega arith)

-- After a read of one byte less than the buffer holds, `buffer[n] = 0` is inside the buffer.
pub in_range-fill :
    (buffer : List ℕ) (size : ℕ)
    → size < length buffer
    → (r : Reply) → IsRead size r
    → fails r.value ≡ false
    → in_range r.value (fill buffer r.bytes) ≡ true
in_range-fill buffer size h r l f =
    in_range-count r.value (fill buffer r.bytes) f l.2
      (omega (arith, l.0, l.1, length-fill buffer r.bytes))

pub length-zeros : (n : ℕ) → length (zeros n) ≡ n
unfolding zeros
length-zeros zero = refl
length-zeros (suc n) = ap suc (length-zeros n)

-- A new descriptor fits a set that is as large as the limit on open descriptors.
pub fits_set-new :
    {limit : ℕ} (size : ℕ) (n : ℤ)
    → limit ≤ size
    → neg_part n ≤ 1
    → pos_part n < limit
    → fails n ≡ false
    → fits_set size n ≡ true
fits_set-new size (pos n) le m lt f = lt→ltb n size (omega arith)
fits_set-new size (negsuc zero) le m lt f = cc
fits_set-new size (negsuc (suc n)) le m lt f = absurd (omega arith)
