-- ===== src/Memory/Releases.antt =====
-- All runs of memory_management.c against what it holds.
pub mod Examples
use linux_system_programming.Base.{
  ◌⊎◌, zero, suc, ℤ, fails, is_zero, positive, ltb, ◌==ℤ◌, ==ℤ_self, ◌≤◌, ◌+◌, arith, Bool, true,
  ◌||◌, Option, none, some, [], ◌∷◌, ◌++◌, codes, length-set, length-append, set, take, drop,
  replicate, ◌∙◌, ◌*◌, Bool-cases, lt→ltb, ltb→lt,
}
use linux_system_programming.Posix
use linux_system_programming.Posix.{
  Prog, ret, ◌>>=◌, Safe-weaken, Call, malloc, free, close, ask, read, write, open_file, realloc,
  calloc, posix_memalign, mmap, msync, munmap, Monitor, safe_call, safe_print, safe_fault,
  Safe-check, int, ◌>>◌, poke,
}
use linux_system_programming.Memory.{
  fresh, fill_tens, print_array, string_from_calloc, dynamic_allocation, stack_and_heap, read_back,
  map_file, data_text, verify_changes, modify_mapping, mapped_file, memory_operations,
  aligned_allocation,
}
use linux_system_programming.Memory.Holdings.{
  Held, is_held, has_zero-append, has_zero-drop, length-fresh, Safe-copy_to,
}
