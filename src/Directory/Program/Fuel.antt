-- ===== src/Directory/Program/Fuel.antt =====
-- The rounds of directory_main's loops.
use linux_system_programming.Base.{ℕ, zero, suc, ℤ, List, [], ◌∷◌, length, ◌<◌, ◌≢◌}
use linux_system_programming.Posix.{
  Libc, Reply, run, cut, Lasts, Lasts-bind, Lasts-run, lasts_rules, lasts_ret, lasts_if,
  lasts_print,
}
use linux_system_programming.Directory.Listing.{
  list_entries, list_directory, describe_entries, describe_directory,
}
use linux_system_programming.Directory.Creating.{
  make_prefixes, nested_directories, create_directories,
}
use linux_system_programming.Directory.Program.{
  process_file, walk, traverse, change_directory, symbolic_link, path_operations, temporary_file,
  clean_up, directory_main,
}

make_prefixes-Lasts : (p path : List ℕ) (n : ℕ) → Lasts (make_prefixes p path) n
unfolding make_prefixes
make_prefixes-Lasts [] path n = search lasts_rules
make_prefixes-Lasts (c ∷ p) path n = search (lasts_rules, make_prefixes-Lasts p) depth 20

module _ (libc : Libc) where
  list_entries-Lasts :
      (rounds : ℕ) (dir : ℤ) (files dirs : ℕ)
      → Lasts (list_entries libc rounds dir files dirs) rounds
  unfolding list_entries
  list_entries-Lasts zero dir files dirs = search lasts_rules
  list_entries-Lasts (suc rounds) dir files dirs =
      search (lasts_rules, list_entries-Lasts rounds) depth 30 fits 20000

  describe_entries-Lasts : (rounds : ℕ) (dir : ℤ) → Lasts (describe_entries libc rounds dir) rounds
  unfolding describe_entries
  describe_entries-Lasts zero dir = search lasts_rules
  describe_entries-Lasts (suc rounds) dir =
      search (lasts_rules, describe_entries-Lasts rounds) depth 30 fits 20000

  walk-Lasts : (rounds : ℕ) → Lasts (walk libc rounds) rounds
  unfolding walk process_file
  walk-Lasts zero = search lasts_rules
  walk-Lasts (suc rounds) = search (lasts_rules, walk-Lasts rounds) depth 30 fits 20000

  list_directory-Lasts : (rounds : ℕ) → Lasts (list_directory libc rounds) rounds
  unfolding list_directory
  list_directory-Lasts rounds =
      search (lasts_rules, Lasts-bind, list_entries-Lasts) depth 30 fits 20000

  describe_directory-Lasts : (rounds : ℕ) → Lasts (describe_directory libc rounds) rounds
  unfolding describe_directory
  describe_directory-Lasts rounds =
      search (lasts_rules, Lasts-bind, describe_entries-Lasts) depth 30 fits 20000

  create_directories-Lasts : (n : ℕ) → Lasts create_directories n
  unfolding create_directories nested_directories
  create_directories-Lasts n =
      search (lasts_rules, Lasts-bind, make_prefixes-Lasts) depth 30 fits 20000

  change_directory-Lasts : (original : List ℕ) (n : ℕ) → Lasts (change_directory libc original) n
  unfolding change_directory
  change_directory-Lasts original n = search lasts_rules depth 30 fits 20000

  symbolic_link-Lasts : (link_target : List ℕ) (n : ℕ) → Lasts (symbolic_link libc link_target) n
  unfolding symbolic_link
  symbolic_link-Lasts link_target n = search lasts_rules depth 30 fits 20000

  temporary_file-Lasts : (n : ℕ) → Lasts temporary_file n
  unfolding temporary_file
  temporary_file-Lasts n = search lasts_rules depth 30 fits 20000

  clean_up-Lasts : (n : ℕ) → Lasts clean_up n
  unfolding clean_up
  clean_up-Lasts n = search lasts_rules depth 30 fits 20000

  directory_main-Lasts :
      (rounds : ℕ) (original link_target : List ℕ)
      → Lasts (directory_main libc rounds original link_target) rounds
  unfolding directory_main traverse path_operations
  directory_main-Lasts rounds original link_target =
      Lasts-bind _ _ (list_directory-Lasts rounds) λ _. lasts_if lasts_ret (
        Lasts-bind _ _ (describe_directory-Lasts rounds) λ _. lasts_if lasts_ret (
          Lasts-bind _ _ (create_directories-Lasts rounds) λ _. lasts_print (
            Lasts-bind _ _ (walk-Lasts rounds) λ _.
              Lasts-bind _ _ (change_directory-Lasts original rounds) λ _.
                Lasts-bind _ _ (symbolic_link-Lasts link_target rounds) λ _. lasts_print (
                  lasts_print (
                    lasts_print (
                      lasts_print (
                        Lasts-bind _ _ (temporary_file-Lasts rounds)
                          λ _. Lasts-bind _ _ (clean_up-Lasts rounds) λ _. lasts_ret)))))))

-- With more rounds than there are replies, a run of `directory_main` is never cut short.
pub directory_main-enough :
    (libc : Libc) (rounds : ℕ) (original link_target : List ℕ) (rs : List Reply)
    → length rs < rounds
    → (run (directory_main libc rounds original link_target) rs).outcome ≢ cut
directory_main-enough libc rounds original link_target rs =
    Lasts-run (directory_main-Lasts libc rounds original link_target) rs
