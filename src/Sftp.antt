-- ===== src/Sftp.antt =====
-- kdumptool/sshtransfer.cc and sshtransfer.h: the SFTP packets, and the client that uploads a dump.
pub mod Packet
pub mod Message
pub mod Coding
pub mod Session
pub mod Stream
pub mod Pieces
pub mod Client
pub mod Quiet
pub mod Upload
pub mod Paths
pub mod Replies
pub mod Exists
mod Tests
