-- ===== src/Transfer.antt =====
-- The data providers and the transfers to files, FTP, NFS and CIFS.
pub mod Provider
pub mod Pipe
pub mod Content
pub mod Events
pub mod Buffer
pub mod Targets
pub mod Shares
pub mod Ftp
mod Tests
