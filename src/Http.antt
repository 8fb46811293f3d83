-- ===== src/Http.antt =====
-- internal/download/http: the download of a file by ranges.
pub mod Segments
pub mod Record
pub mod Transfer
pub mod Download
pub mod Headers
pub mod Titles
