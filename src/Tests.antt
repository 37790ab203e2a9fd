-- ===== src/Tests.antt =====
-- Small inputs on which the theorems are applied.
pub mod PathTests
pub mod DiffTests
pub mod FuzzyTests
pub mod IdbFsTests
pub mod SyncTests
pub mod SearchTests
pub mod NamingTests
pub mod ZipTests
pub mod VersionedTests
pub mod OpfsTests
pub mod AppTests
mod MemoryBackend
pub mod MutexTests
pub mod FormatTests
pub mod AttachmentTests
