-- ===== src/System.antt =====
-- The stubs of share/mopsa/stubs/c/libc that allocate memory, files and descriptors: stdlib.c,
-- fcntl.c, unistd.c, stdio.c, sys/stat.c and sys/socket.c.
pub mod Table
pub mod Lookup
pub mod World
pub mod Steps
pub mod Roundtrip
pub mod Reuse
pub mod Closing
pub mod Tests
pub mod Invariant
pub mod Heap
pub mod Descriptors
pub mod Files
pub mod Process
pub mod Streams
pub mod StreamIo
pub mod Terminals
pub mod FileStatus
pub mod Sockets
pub mod Pairs
