-- ===== src/Directory/Tests.antt =====
-- Runs of the directory program: its own nested path, a listing, and the whole of it.
use linux_system_programming.Base.{◌≢◌, ℕ, pos, ◌≡◌, refl, List, [], ◌∷◌, codes, arith}
use linux_system_programming.Posix.{cut, Reply, run, returned, Obeys, zeros}
use linux_system_programming.Socket.Sample.{sample, gives, failed, brings, plain_file}
use linux_system_programming.Directory.Listing.{
  list_entries, list_directory, describe_entries, describe_directory,
}
use linux_system_programming.Directory.Listing.Tally.{tally, list_entries-tally}
use linux_system_programming.Directory.Creating.{
  make_prefixes, nested, nested_directories, create_directories,
}
use linux_system_programming.Directory.Creating.Prefixes.{
  making, slash_prefixes, make_prefixes-making,
}
use linux_system_programming.Directory.Program.{
  process_file, walk, traverse, change_directory, symbolic_link, path_operations, temporary_file,
  clean_up, directory_main,
}
use linux_system_programming.Directory.Program.Fuel.{directory_main-enough}

two_prefixes :
    slash_prefixes nested ≡ codes "test_directory/" ∷ codes "test_directory/subdir1/" ∷ []
two_prefixes = refl

abbrev twice : List Reply
twice = gives (pos 0) ∷ failed (pos 17) ∷ []

make_prefixes-making_example :
    Obeys making (slash_prefixes nested) (λ _ left. left ≡ []) (run (make_prefixes nested []) twice)
unfolding run make_prefixes
make_prefixes-making_example = make_prefixes-making nested 1024 twice (omega arith) (tt, (tt, tt))

abbrev names : List ℕ → Reply
names bytes = record (brings bytes) { value = pos 1 }

-- ".", a directory, then a hidden file, then a file that is shown, then the end
abbrev entries : List Reply
entries =
    record (names (codes ".")) { status = record plain_file { d_type = 4 } }
    ∷ names (codes ".profile")
    ∷ names (codes "notes")
    ∷ gives (pos 0)
    ∷ []

counts : (run (list_entries sample 5 (pos 9) 0 0) entries).outcome ≡ returned (1, 1)
unfolding run list_entries
counts = refl

list_entries-tally_example :
    Obeys (tally sample) (0, 0) (λ r s. r ≡ s) (run (list_entries sample 5 (pos 9) 0 0) entries)
unfolding run list_entries
list_entries-tally_example =
    list_entries-tally sample 1024 5 (pos 9) entries (omega arith) (ground arith)

abbrev ok : Reply
ok = gives (pos 0)

-- two empty listings, the new directories, a walk that visits one file, the link and the temporary file
abbrev history : List Reply
history =
    gives (pos 9)
    ∷ ok
    ∷ ok
    ∷ gives (pos 9)
    ∷ ok
    ∷ ok
    ∷ ok
    ∷ failed (pos 17)
    ∷ ok
    ∷ ok
    ∷ names (codes "test_directory")
    ∷ ok
    ∷ names (codes "/home")
    ∷ ok
    ∷ names (codes "/home/test_directory")
    ∷ ok
    ∷ ok
    ∷ brings (codes "test_directory")
    ∷ gives (pos 4)
    ∷ gives (pos 14)
    ∷ ok
    ∷ ok
    ∷ ok
    ∷ ok
    ∷ ok
    ∷ ok
    ∷ []

whole : (run (directory_main sample 5 [] (zeros 256)) history).outcome ≡ returned (pos 0)
unfolding run directory_main list_directory describe_directory list_entries describe_entries
    create_directories nested_directories make_prefixes traverse walk process_file change_directory
    symbolic_link path_operations temporary_file clean_up zeros
whole = refl

directory_main-enough_example :
    (run (directory_main sample 30 [] (zeros 256)) history).outcome ≢ cut
directory_main-enough_example = directory_main-enough sample 30 [] (zeros 256) history (omega arith)
