-- ===== src/Directory.antt =====
-- directory_ops.c: listing, creating, walking and removing directories.
pub mod Listing
pub mod Creating
pub mod Program
mod Tests
