-- ===== src/LogFiles.antt =====
-- plugins/log_files/log_files_impl.h and log_files_impl.cpp: the list of the log files, and their
-- download. Each handler holds its mutex from end to end, or runs in two such parts, and is one
-- step.
pub mod State
pub mod Entries
pub mod Download
pub mod Copies
pub mod Content
pub mod Written
pub mod Chunks
pub mod Listing
unfoldable pub use State.*
unfoldable pub use Entries.*
unfoldable pub use Download.*
