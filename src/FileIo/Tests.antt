-- ===== src/FileIo/Tests.antt =====
-- A run of the file program: what it wrote is read back.
use linux_system_programming.Base.{false, pos, ◌≡◌, refl, List, [], ◌∷◌, codes}
use linux_system_programming.Posix.{Reply, run, returned, zeros}
use linux_system_programming.Socket.Sample.{gives, brings}
use linux_system_programming.FileIo.{
  write_file, read_file, read_five, read_position, append_line, seek_and_append, read_and_append,
  file_main,
}
use linux_system_programming.FileIo.Disk.{Disk}
use linux_system_programming.FileIo.Descriptors.{files}

abbrev ok : Reply
ok = gives (pos 0)

abbrev opened : Reply
opened = gives (pos 3)

abbrev answers : List Reply
answers =
    opened
    ∷ gives (pos 33)
    ∷ ok
    ∷ opened
    ∷ brings (codes "Hello, Linux System Programming!\n")
    ∷ ok
    ∷ opened
    ∷ gives (pos 7)
    ∷ brings (codes "Linux")
    ∷ ok
    ∷ opened
    ∷ gives (pos 15)
    ∷ ok
    ∷ []

status : (run (file_main (zeros 256)) answers).outcome ≡ returned (pos 0)
unfolding run file_main write_file read_file read_five read_position append_line seek_and_append
    read_and_append zeros
status = refl

-- no file is there yet
abbrev empty_disk : Disk
empty_disk = record { files = []; path = []; offset = 0; appends = false }
