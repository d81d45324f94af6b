-- ===== src/FsWatch.antt =====
-- class FsWatch of src/fs-watch.cpp: a watcher of a directory tree over inotify and epoll. The
-- answers of the kernel and the entries of a walk are arguments of the steps that ask for them.
pub mod Outcome
pub mod State
pub mod Handlers
pub mod Removal
pub mod Adding
pub mod Events
pub mod Invariant
pub mod Rounds
pub mod Created
pub mod Written
mod Tests
