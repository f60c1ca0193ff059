-- ===== src/Memory/Tests.antt =====
-- A run of the memory program to its end, and copies in range and out of it.
use linux_system_programming.Base.{
  ℕ, pos, ◌≡◌, ◌≤◌, ◌<◌, ◌⊎◌, refl, List, [], ◌∷◌, length, codes, get_or, replicate, ◌++◌,
}
use linux_system_programming.Posix.{Reply, run, returned, faulted, zeros, printed, out, text}
use linux_system_programming.Socket.Sample.{gives, brings}
use linux_system_programming.Memory.{
  copy_to, fresh, fill_tens, print_array, string_from_calloc, dynamic_allocation, stack_and_heap,
  data_text, read_back, verify_changes, modify_mapping, edit_mapping, map_file, mapped_file,
  memory_operations, aligned_allocation, Locals, memory_main,
}
use linux_system_programming.Memory.Copies.{after_copy, modify_mapping-pointwise}

-- The copy begins one byte after the "e" of "example".
modified_text :
    (run (modify_mapping data_text) []).events
    ≡ printed (out "Original content: %s\n" (text data_text ∷ []))
      ∷ printed (
          out "Modified content: %s\n"
            (text (codes "Memory mapped file eEXAMPLE- This file is mapped to memory") ∷ []))
      ∷ []
unfolding run modify_mapping copy_to
modified_text = refl

modify_mapping-pointwise_example :
    (((result : List ℕ) × (run (modify_mapping data_text) []).outcome ≡ returned result
        × length result ≡ length data_text
        × ((i d : ℕ) → get_or result i d ≡ after_copy data_text 20 (codes "EXAMPLE") i d))
      × (27 ≤ length data_text))
    ⊎ (((run (modify_mapping data_text) []).outcome ≡ faulted) × (length data_text < 27))
modify_mapping-pointwise_example = modify_mapping-pointwise data_text []

abbrev locals : Locals
locals = record {
  garbage = λ i. i;
  stack = pos 5000;
  verify_buffer = zeros 256;
  dst = zeros 50;
  fill_buf = zeros 20;
}

abbrev block : ℕ → Reply
block n = gives (pos n)

abbrev ok : Reply
ok = gives (pos 0)

abbrev rest : List Reply
rest =
    block 192
    ∷ ok
    ∷ ok
    ∷ ok
    ∷ block 256
    ∷ ok
    ∷ ok
    ∷ ok
    ∷ gives (pos 3)
    ∷ gives (pos 58)
    ∷ record (brings data_text) { value = pos 4096 }
    ∷ ok
    ∷ ok
    ∷ ok
    ∷ ok
    ∷ gives (pos 3)
    ∷ brings data_text
    ∷ ok
    ∷ ok
    ∷ ok
    ∷ []

-- blocks at 64, 128, 192 and 256, the file as descriptor 3, its mapping at 4096, an aligned block; a
-- reply to each access too
abbrev answers : List Reply
answers = block 64 ∷ (replicate 10 ok ++ block 128 ∷ (replicate 6 ok ++ rest))

ends : (run (memory_main locals) answers).outcome ≡ returned (pos 0)
unfolding run memory_main fresh fill_tens print_array string_from_calloc dynamic_allocation
    stack_and_heap read_back verify_changes modify_mapping edit_mapping map_file mapped_file
    memory_operations aligned_allocation copy_to zeros
ends = refl
