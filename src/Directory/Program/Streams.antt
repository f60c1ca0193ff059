-- ===== src/Directory/Program/Streams.antt =====
-- What the rest of `directory_main` does with streams and files.
use linux_system_programming.Posix
use linux_system_programming.Posix.{Call, close, opendir, readdir, closedir, write, Monitor}
