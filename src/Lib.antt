-- ===== src/Lib.antt =====
-- Tactile keeps notes as files in storage backends and offers editing, search and version diffs on
-- top of them. This library models the parts that carry its logic.
--
-- The parts:
-- - Base: shared names; JavaScript strings as lists of UTF-16 code units (Base/Strings), objects
--   with string keys as association lists (Base/Dict), what may be thrown (Base/Outcome, the
--   `StorageError` of packages/storage/src/paths.ts), integers (Base/Int).
-- - Paths: packages/storage/src/paths.ts, one function for each of its functions in snake_case
--   (`normalizePath` is `normalize_path`).
-- - Storage: the types of packages/storage/src/types.ts and the monad of the backend operations.
--   Storage/Backend is the interface `StorageBackend`, a record that wrappers and the application
--   take as a parameter.
-- - ObjectStore: the IndexedDB object store, a parameter with its documented behaviour;
--   ObjectStore/Memory is an instance of it.
-- - IdbFs: packages/storage/src/idbfs.ts. The state `Fs` is the database and the events emitted; an
--   operation takes the state to a result and a state, which is left also where it throws. It uses
--   Paths for every path it is given.
-- - Versioned: packages/storage/src/versioned.ts, the wrapper that snapshots a file before a write.
--   Its state is that of the wrapped backend and the table of the last snapshots.
-- - Opfs: packages/storage/src/opfs.ts, on the browser's file handles, the parameter `FileSystem`.
-- - Mutex: packages/storage/src/mutex.ts, the mutex by which the backends order their operations, as
--   a step relation; Mutex/Lock is the lock that it implements.
-- - Format: packages/storage/src/format.ts, the version of the layout of a store.
-- - App: packages/core/src/api. App/Notes and App/Moving are notes.ts, App/Folders is folders.ts,
--   App/Trash is trash.ts; the state `App` is the part of `appState` that they use, with the
--   backend's. They call Naming, which is `getNextUntitledName` of packages/core/src/utils/files.ts
--   and the copy index of `duplicateNote`.
-- - Attachments: packages/core/src/api/attachments.ts, the cache of object URLs.
-- - Zip: packages/core/src/utils/zip.ts.
-- - Diff: packages/core/src/utils/diff.ts. The table of `lcsDiff` is a list of rows.
-- - Fuzzy: packages/core/src/utils/fuzzy.ts. The runtime's `toLowerCase` is a parameter.
-- - Sync: packages/core/src/api/sync.ts, the reconciliation of a collection with the relay. The
--   storage backend, the relay and the ciphers are the parameter `Host`; `Pass` is the state of the
--   loop of `syncNow`, and one function stands for each branch of its body.
-- - Search: `searchFile` of packages/core/src/utils/search.ts, which uses Fuzzy.
-- - Tests: the theorems at small inputs.
--
-- Bounds and fuel: `word_loop` runs on one more round than the text has characters, and each round
-- moves the cursor on; `to_hex` on one more than the number; the loops of `diffLines` are bounded by
-- the lengths of the lists. The hash is kept modulo 2 ^ 32; the entries of the table of `lcsDiff`
-- stay below the number of lines, within its 32-bit words. A loop that looks for a free name runs on
-- one more round than there are names in use; `bump` has its rounds as an argument, and as many are
-- enough. The copy of a directory in Opfs has the depth of the tree as an argument, and throws where
-- that is too small.
--
-- Not modelled: the start and the end of a sync (walking the collection, reading and publishing the
-- manifest), the search cache and the search over all files, collections, the import of attachments,
-- links, the Tauri backend and the user interface. An operation of a backend runs from its start to
-- its end without other operations between its awaited calls, although the mutex orders only those
-- that take the same key (`mkdir` of IdbFs takes none); a call that is not awaited runs to its end;
-- the texts of error messages are left out. A database that does not open, a request that is rejected
-- and a transaction that is aborted are errors of the object store, and `getStorage` may throw. Paths
-- that are names of `Object.prototype` are not modelled where the code indexes a plain object by a
-- path (Sync), and numbers in names are exact, as doubles are below 2 ^ 53 (Naming). The index
-- positions of Fuzzy are those of the folded text, which the code uses as positions of the text
-- itself.
pub mod Base
pub mod Paths
pub mod Diff
pub mod Fuzzy
pub mod Storage
pub mod ObjectStore
pub mod IdbFs
pub mod Sync
pub mod Versioned
pub mod Mutex
pub mod Format
pub mod Attachments
pub mod Zip
pub mod Opfs
pub mod Naming
pub mod App
pub mod Search
pub mod Tests
