-- ===== src/Ftp.antt =====
-- internal/download/ftp: the worker for FTP.
pub mod Names
pub mod Listing
pub mod Transfer
pub mod Run
pub mod Root
pub mod Directory
pub mod Source
pub mod Worker
