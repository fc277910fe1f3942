-- ===== src/Mission.antt =====
-- plugins/mission/mission_impl.h and mission_impl.cpp: upload, download and start of a mission.
-- Each handler takes its mutexes for a short time, and runs as one step.
pub mod State
pub mod Upload
pub mod Download
pub mod Control
pub mod Uploads
pub mod Steps
pub mod Refused
pub mod Downloads
pub mod Timeouts
unfoldable pub use State.*
unfoldable pub use Upload.*
unfoldable pub use Download.*
unfoldable pub use Control.*
