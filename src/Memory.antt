-- ===== src/Memory.antt =====
-- memory_management.c: blocks of memory, a mapped file, and copies between buffers.
pub mod Holdings
pub mod Releases
pub mod Copies
mod Tests
use linux_system_programming.Base.{
  ℕ, zero, suc, ℤ, pos, pos_part, is_zero, not, fails, positive, leb, ◌==◌, ◌+◌, ◌*◌, ◌%◌, Bool,
  true, false, ◌||◌, codes, List, [], ◌∷◌, ◌++◌, length, take, drop, replicate, get_or,
}
use linux_system_programming.Posix.{
  Libc, num, text, Prog, ret, fault, if◌then◌else◌, ◌>>=◌, ◌>>◌, sys, int, printf, perror, require,
  fill, poke, zeros, c_string, ask, close, malloc, free, read, write, open_file, realloc, calloc,
  posix_memalign, mmap, msync, munmap, touch, o_creat, o_rdonly, o_rdwr, o_trunc,
}
use linux_system_programming.Socket.Dispatch.{same_text}

-- `memcpy`, `memmove` and `strcpy` to an offset of a buffer; beyond its end this is undefined.
unfoldable pub copy_to : List ℕ → ℕ → List ℕ → Prog (List ℕ)
copy_to buffer at bytes =
    if leb (at + length bytes) (length buffer)
    then ret (take at buffer ++ (bytes ++ drop (at + length bytes) buffer))
    else fault

-- What `n` elements of a new block hold: anything.
unfoldable pub fresh : (ℕ → ℕ) → ℕ → List ℕ
fresh garbage zero = []
fresh garbage (suc n) = garbage n ∷ fresh garbage n

-- the loops `arr[i] = i * 10` and `printf("%d ", arr[i])` over the block at `block`, for `left` elements
-- from `i` on; each round accesses the block
unfoldable pub fill_tens : ℤ → ℕ → ℕ → List ℕ → Prog (List ℕ)
fill_tens block zero i arr = ret arr
fill_tens block (suc left) i arr = do
  int (ask (touch block))
  filled ← poke arr (pos i) (i * 10)
  fill_tens block left (suc i) filled

unfoldable pub print_array : ℤ → ℕ → ℕ → List ℕ → Prog (Unit {0})
print_array block zero i arr = ret tt
print_array block (suc left) i arr = do
  int (ask (touch block))
  printf "%d " (num (pos (get_or arr i 0)) ∷ [])
  print_array block left (suc i) arr

-- The examples give `false` where they call `exit(1)`. An `int` has 4 bytes.
unfoldable pub string_from_calloc : Prog Bool
string_from_calloc = do
  buffer ← int (ask (calloc 100 1))
  if is_zero buffer then (do perror "calloc"; ret false) else (do
    int (ask (touch buffer))
    filled ← copy_to (zeros 100) 0 (codes "Hello, allocated memory!" ++ 0 ∷ [])
    int (ask (touch buffer))
    printf "String from calloc: %s\n" (text (c_string filled) ∷ [])
    int (free buffer)
    ret true)

unfoldable pub dynamic_allocation : (ℕ → ℕ) → Prog Bool
dynamic_allocation garbage = do
  printf "=== Dynamic Memory Allocation ===\n" []
  arr ← int (malloc 20)
  if is_zero arr then (do perror "malloc"; ret false) else (do
    five ← fill_tens arr 5 0 (fresh garbage 5)
    printf "Array allocated with malloc: " []
    print_array arr 5 0 five
    printf "\n" []
    new_arr ← int (ask (realloc arr 40))
    if is_zero new_arr then (do perror "realloc"; int (free arr); ret false) else (do
      fill_tens new_arr 5 5 (five ++ fresh garbage 5)
      printf "Array resized with realloc (10 elements)\n" []
      int (free new_arr)
      string_from_calloc))

-- `stack` is the address of `stack_var`. The block is written to without a test for NULL.
unfoldable pub stack_and_heap : ℤ → Prog (Unit {0})
stack_and_heap stack = do
  printf "\n=== Stack vs Heap ===\n" []
  heap_ptr ← int (malloc 4)
  require (not (is_zero heap_ptr))
  int (ask (touch heap_ptr))
  printf "Stack variable address: %p (value: %d)\n" (num stack ∷ num (pos 42) ∷ [])
  int (ask (touch heap_ptr))
  printf "Heap variable address: %p (value: %d)\n" (num heap_ptr ∷ num (pos 100) ∷ [])
  int (free heap_ptr)
  ret tt

abbrev pub data_text : List ℕ
data_text = codes "Memory mapped file example - This file is mapped to memory"

abbrev pub filename : List ℕ
filename = codes "test_mmap.txt"

abbrev pub has_zero : List ℕ → Bool
has_zero [] = false
has_zero (c ∷ bytes) = (c == 0) || has_zero bytes

-- `verify_buffer` is the uninitialised local of 256 bytes; `%s` reads on until it finds a zero.
unfoldable pub read_back : List ℕ → ℤ → Prog Bool
read_back verify_buffer fd = do
  r ← sys (ask (read fd 256))
  let filled = fill verify_buffer r.bytes
  require (has_zero filled)
  printf "File content after mapping: %s\n" (text (c_string filled) ∷ [])
  int (close fd)
  ret true

unfoldable pub verify_changes : List ℕ → Prog Bool
verify_changes verify_buffer = do
  fd ← int (ask (open_file filename (o_rdonly ∷ [])))
  read_back verify_buffer fd

-- The text that is put into the mapped file.
unfoldable pub modify_mapping : List ℕ → Prog (List ℕ)
modify_mapping mapped = do
  printf "Original content: %s\n" (text (c_string mapped) ∷ [])
  modified ← copy_to mapped 20 (codes "EXAMPLE")
  printf "Modified content: %s\n" (text (c_string modified) ∷ [])
  ret modified

-- The accesses to the mapping at `addr`, which shows `mapped`.
unfoldable pub edit_mapping : ℤ → List ℕ → Prog (List ℕ)
edit_mapping addr mapped = do int (ask (touch addr)); modify_mapping mapped

-- The reply to `mmap` brings what the mapping shows; what follows it on its page is zero. On a file that
-- is still empty the access ends the process (SIGBUS).
unfoldable pub map_file : List ℕ → ℤ → ℤ → Prog Bool
map_file verify_buffer fd written = do
  addr ← sys (ask (mmap (length data_text) fd))
  if fails addr.value then (do perror "mmap"; int (close fd); ret false) else (do
    require (positive written)
    edit_mapping addr.value addr.bytes
    synced ← int (ask (msync addr.value (length data_text)))
    if fails synced then perror "msync" else ret tt
    int (ask (munmap addr.value (length data_text)))
    int (close fd)
    verify_changes verify_buffer)

unfoldable pub mapped_file : List ℕ → Prog Bool
mapped_file verify_buffer = do
  printf "\n=== Memory-Mapped Files ===\n" []
  fd ← int (ask (open_file filename (o_creat ∷ o_rdwr ∷ o_trunc ∷ [])))
  if fails fd
      then (do perror "open"; ret false)
      else (do written ← int (ask (write fd data_text)); map_file verify_buffer fd written)

-- `dst` and `fill_buf` are the uninitialised locals of 50 and 20 bytes.
unfoldable pub memory_operations : List ℕ → List ℕ → Prog (Unit {0})
memory_operations dst fill_buf = do
  printf "\n=== Memory Operations ===\n" []
  copied ← copy_to dst 0 (codes "Source string" ++ 0 ∷ [])
  printf "After memcpy: %s\n" (text (c_string copied) ∷ [])
  stars ← copy_to fill_buf 0 (replicate 20 42)
  ended ← poke stars (pos 19) 0
  printf "After memset with '*': %s\n" (text (c_string ended) ∷ [])
  let overlap = codes "HelloWorld" ++ zeros 20
  moved ← copy_to overlap 5 (take 11 overlap)
  printf "After memmove: %s\n" (text (c_string moved) ∷ [])
  if same_text (codes "abc") (codes "abc") then printf "memcmp: strings are equal\n" [] else ret tt

unfoldable pub aligned_allocation : Prog (Unit {0})
aligned_allocation = do
  printf "\n=== Aligned Memory Allocation ===\n" []
  result ← sys (ask (posix_memalign 64 1024))
  if is_zero result.value
      then (do
        let aligned_ptr = result.pointer
        printf "Allocated 1024 bytes aligned to %d bytes\n" (num (pos 64) ∷ [])
        printf "Address: %p\n" (num aligned_ptr ∷ [])
        printf "Address mod %d = %zu (should be 0)\n"
            (num (pos 64) ∷ num (pos (pos_part aligned_ptr % 64)) ∷ [])
        int (free aligned_ptr)
        ret tt)
      else printf "posix_memalign failed\n" []

-- What the uninitialised variables hold, and where `stack_var` is.
pub record Locals : Type 0 where
  pub garbage : ℕ → ℕ
  pub stack : ℤ
  pub verify_buffer : List ℕ
  pub dst : List ℕ
  pub fill_buf : List ℕ

unfoldable pub memory_main : Locals → Prog ℤ
memory_main locals = do
  allocated ← dynamic_allocation locals.garbage
  if not allocated then ret (pos 1) else (do
    stack_and_heap locals.stack
    mapped ← mapped_file locals.verify_buffer
    if not mapped
        then ret (pos 1)
        else (do memory_operations locals.dst locals.fill_buf; aligned_allocation; ret (pos 0)))
