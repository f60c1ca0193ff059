-- ===== src/Memory/Releases/Examples.antt =====
-- The five examples of memory_management.c against what they hold.
use linux_system_programming.Base.{
  ◌⊎◌, ℕ, zero, suc, ℤ, fails, is_zero, positive, ltb, ◌==ℤ◌, ==ℤ_self, ◌≡◌, refl, ◌≤◌, ◌+◌, arith,
  Bool, true, ◌||◌, Option, none, some, List, [], ◌∷◌, ◌++◌, codes, length, length-set,
  length-append, set, get_or, take, drop, replicate, inl, inr, ◌∙◌, ◌*◌, Bool-cases, lt→ltb, ltb→lt,
}
use linux_system_programming.Posix
use linux_system_programming.Posix.{
  Prog, ret, call, ◌>>=◌, Safe-weaken, Call, malloc, free, close, ask, read, write, open_file,
  realloc, calloc, posix_memalign, mmap, msync, munmap, touch, Reply, Monitor, Safe, safe_ret,
  safe_call, safe_if, safe_print, safe_fault, Safe-check, Safe-bind, int, ◌>>◌, Safe-Obeys,
  AllLawful, run, Obeys, poke,
}
use linux_system_programming.Memory.{
  fresh, fill_tens, print_array, string_from_calloc, dynamic_allocation, stack_and_heap, read_back,
  map_file, data_text, verify_changes, modify_mapping, edit_mapping, mapped_file, memory_operations,
  aligned_allocation,
}
use linux_system_programming.Memory.Holdings.{
  Held, nothing, is_held, memory, IsReleased, has_zero-append, has_zero-drop, length-fresh,
  Safe-copy_to,
}

held : (x : ℤ) → ((x ==ℤ x) || fails x) ≡ true
held x = rw (==ℤ_self x) refl

abbrev overlap : List ℕ
overlap = codes "HelloWorld" ++ Posix.zeros 20

module _ {limit : ℕ} where
  -- an access to the block that is held
  touched :
      {A : Type 0} {Q : A → Held → Type 0} {p : Reply → Prog A} (block : ℤ) {s : Held}
      → is_held s.block block ≡ true
      → ((r : Reply) → Safe limit memory Q (p r) s)
      → Safe limit memory Q (call (ask (touch block)) p) s
  touched block e h = safe_call (rw e refl) λ r _. h r

  print_array-Safe :
      (block : ℤ) (left i : ℕ) (arr : List ℕ) (s : Held)
      → is_held s.block block ≡ true
      → Safe limit memory (λ _ t. t ≡ s) (print_array block left i arr) s
  unfolding print_array
  print_array-Safe block zero i arr s b = safe_ret refl
  print_array-Safe block (suc left) i arr s b =
      touched block b λ _. safe_print (print_array-Safe block left (suc i) arr s b)

  fill_tens-Safe :
      (block : ℤ) (left i : ℕ) (arr : List ℕ) (s : Held)
      → is_held s.block block ≡ true
      → i + left ≤ length arr
      → Safe limit memory (λ a t. (length a ≡ length arr) × (t ≡ s)) (fill_tens block left i arr) s
  unfolding fill_tens
  fill_tens-Safe block zero i arr s b le = safe_ret (refl, refl)
  fill_tens-Safe block (suc left) i arr s b le = touched block b λ _.
      Safe-check (lt→ltb i (length arr) (omega arith)) (
        Safe-weaken
          (fill_tens-Safe block left (suc i) (set arr i (i * 10)) s b
            (omega (arith, length-set arr i (i * 10))))
          (λ a t e. (e.0 ∙ length-set arr i (i * 10), e.1)))

  string_from_calloc-Safe : (u : Bool) → Safe limit memory IsReleased string_from_calloc (nothing u)
  unfolding string_from_calloc Posix.zeros
  string_from_calloc-Safe u = safe_call refl λ r _.
      safe_if (λ e. rw e (safe_print (safe_ret refl)))
        (λ e. rw e (
          touched r.value (==ℤ_self r.value) λ _.
            Safe-copy_to (Posix.zeros 100) 0 _ _ (omega arith) (
              touched r.value (==ℤ_self r.value)
                λ _. safe_print (safe_call (==ℤ_self r.value) λ _ _. safe_ret refl))))

  pub stack_and_heap-Safe :
      (stack : ℤ) (u : Bool) → Safe limit memory IsReleased (stack_and_heap stack) (nothing u)
  unfolding stack_and_heap
  stack_and_heap-Safe stack u = safe_print (
      safe_call refl λ r _. elim (Bool-cases (is_zero r.value)) [
        | inl e ↦ rw e (safe_if (λ e'. cc) (λ _. safe_fault refl))
        | inr e ↦ rw e (
            safe_if
              (λ _. touched r.value (==ℤ_self r.value) λ _. safe_print (
                touched r.value (==ℤ_self r.value)
                  λ _. safe_print (safe_call (==ℤ_self r.value) λ _ _. safe_ret refl)))
              (λ e'. cc))
      ])

  pub aligned_allocation-Safe :
      (u : Bool) → Safe limit memory IsReleased aligned_allocation (nothing u)
  unfolding aligned_allocation
  aligned_allocation-Safe u = safe_print (
      safe_call refl λ r _.
        safe_if
          (λ e. rw e (
            safe_print
              (safe_print (safe_print (safe_call (==ℤ_self r.pointer) λ _ _. safe_ret refl)))))
          (λ e. rw e (safe_print (safe_ret refl))))

  read_back-Safe :
      (verify_buffer : List ℕ) (fd : ℤ) (u : Bool) (f : Option ℤ)
      → get_or verify_buffer 255 1 ≡ 0
      → (is_held f fd || fails fd) ≡ true
      → Safe limit memory IsReleased (read_back verify_buffer fd) (record (nothing u) { file = f })
  unfolding read_back
  read_back-Safe verify_buffer fd u f z h = safe_call h λ r _.
      elim (Bool-cases (ltb (length r.bytes) 256)) [
        | inl e ↦ rw e (
            Safe-check
              (has_zero-append r.bytes _ (
                has_zero-drop verify_buffer (length r.bytes) 255
                  (let lt = ltb→lt (length r.bytes) 256 e in omega arith) z))
              (safe_print (safe_call h λ _ _. safe_ret refl)))
        | inr e ↦
            rw e
              (safe_if (λ _. safe_print (safe_call h λ _ _. safe_ret refl)) (λ _. safe_fault refl))
      ]

  verify_changes-Safe :
      (verify_buffer : List ℕ) (u : Bool)
      → get_or verify_buffer 255 1 ≡ 0
      → Safe limit memory IsReleased (verify_changes verify_buffer) (nothing u)
  unfolding verify_changes
  verify_changes-Safe verify_buffer u z = safe_call refl λ fd _.
      elim (Bool-cases (fails fd.value)) [
        | inl e ↦ rw e (read_back-Safe verify_buffer fd.value u none z e)
        | inr e ↦ rw e (read_back-Safe verify_buffer fd.value u (some fd.value) z (held fd.value))
      ]

  edit_mapping-Safe :
      (addr : ℤ) (mapped : List ℕ) (u : Bool) (f : Option ℤ)
      → 27 ≤ length mapped
      → Safe limit memory
          (λ _ t. t ≡ record (nothing u) { mapping = some addr; file = f })
          (edit_mapping addr mapped)
          (record (nothing u) { mapping = some addr; file = f })
  unfolding edit_mapping modify_mapping
  edit_mapping-Safe addr mapped u f le =
      safe_call (==ℤ_self addr)
        λ _ _. safe_print (Safe-copy_to mapped 20 _ _ (omega arith) (safe_print (safe_ret refl)))

  unmapped :
      (verify_buffer : List ℕ) (fd addr : ℤ) (u : Bool)
      → get_or verify_buffer 255 1 ≡ 0
      → Safe limit memory IsReleased
          (do
            int (ask (munmap addr (length data_text)))
            int (close fd)
            verify_changes verify_buffer)
          (record (nothing u) { mapping = some addr; file = some fd })
  unmapped verify_buffer fd addr u z =
      safe_call (==ℤ_self addr)
        λ _ _. safe_call (held fd) λ _ _. verify_changes-Safe verify_buffer u z

  map_file-Safe :
      (verify_buffer : List ℕ) (fd written : ℤ) (u : Bool)
      → get_or verify_buffer 255 1 ≡ 0
      → (positive written ≡ true) ⊎ (u ≡ true)
      → Safe limit memory IsReleased
          (map_file verify_buffer fd written)
          (record (nothing u) { file = some fd })
  unfolding map_file
  map_file-Safe verify_buffer fd written u z h = safe_call (==ℤ_self fd) λ addr law.
      safe_if (λ e. rw e (safe_print (safe_call (held fd) λ _ _. safe_ret refl)))
        (λ e. rw e (
          safe_if
            (λ _.
              Safe-bind _ (edit_mapping-Safe addr.value addr.bytes _ _ (omega (arith, law)))
                (λ m t e'. rw e' (
                  safe_call (==ℤ_self addr.value) λ synced _.
                    safe_if (λ _. safe_print (unmapped verify_buffer fd addr.value u z))
                      (λ _. unmapped verify_buffer fd addr.value u z))))
            (λ e'. elim h [ inl p ↦ cc | inr q ↦ safe_fault q ])))

  pub mapped_file-Safe :
      (verify_buffer : List ℕ) (u : Bool)
      → get_or verify_buffer 255 1 ≡ 0
      → Safe limit memory IsReleased (mapped_file verify_buffer) (nothing u)
  unfolding mapped_file
  mapped_file-Safe verify_buffer u z = safe_print (
      safe_call refl λ fd _.
        safe_if (λ e. rw e (safe_print (safe_ret refl)))
          (λ e. rw e (
            safe_call (==ℤ_self fd.value) λ w _. elim (Bool-cases (positive w.value)) [
              | inl p ↦ rw p (map_file-Safe verify_buffer fd.value w.value u z (inl p))
              | inr p ↦ rw p (map_file-Safe verify_buffer fd.value w.value true z (inr refl))
            ])))

  pub memory_operations-Safe :
      (dst fill_buf : List ℕ) (u : Bool)
      → length dst ≡ 50
      → length fill_buf ≡ 20
      → Safe limit memory IsReleased (memory_operations dst fill_buf) (nothing u)
  unfolding memory_operations Posix.zeros
  memory_operations-Safe dst fill_buf u e e' = safe_print (
      Safe-copy_to dst 0 (codes "Source string" ++ 0 ∷ []) _ (omega arith) (
        safe_print (
          Safe-copy_to fill_buf 0 (replicate 20 42) _ (omega arith) (
            Safe-check (lt→ltb 19 (length (replicate 20 42 ++ drop 20 fill_buf)) (omega arith)) (
              safe_print (
                Safe-copy_to overlap 5 (take 11 overlap) _ (omega arith) (
                  safe_print (safe_if (λ _. safe_print (safe_ret refl)) (λ _. safe_ret refl)))))))))

  pub dynamic_allocation-Safe :
      (garbage : ℕ → ℕ) (u : Bool)
      → Safe limit memory IsReleased (dynamic_allocation garbage) (nothing u)
  unfolding dynamic_allocation
  dynamic_allocation-Safe garbage u = safe_print (
      safe_call refl λ r _.
        safe_if (λ e. rw e (safe_print (safe_ret refl)))
          (λ e. rw e (
            Safe-bind _
              (fill_tens-Safe r.value 5 0 (fresh garbage 5) _ (==ℤ_self r.value)
                (omega (arith, length-fresh garbage 5)))
              λ five t q. rw q.1 (
                safe_print (
                  Safe-bind _ (print_array-Safe r.value 5 0 five _ (==ℤ_self r.value)) λ _ t' q'.
                    rw q' (
                      safe_print (
                        safe_call (==ℤ_self r.value) λ n _.
                          safe_if
                            (λ e'.
                              rw e'
                                (safe_print (safe_call (==ℤ_self r.value) λ _ _. safe_ret refl)))
                            (λ e'. rw e' (
                              Safe-bind _
                                (fill_tens-Safe n.value 5 5 (five ++ fresh garbage 5) _
                                  (==ℤ_self n.value)
                                  (omega (
                                    arith,
                                    length-append {0} five (fresh garbage 5),
                                    q.0,
                                    length-fresh garbage 5,
                                  )))
                                λ ten t'' q''. rw q''.1 (
                                  safe_print (
                                    safe_call (==ℤ_self n.value)
                                      λ _ _. string_from_calloc-Safe u)))))))))))
