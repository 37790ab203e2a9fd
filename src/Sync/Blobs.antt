-- ===== src/Sync/Blobs.antt =====
-- The blobs that `syncNow` deletes once the new manifest is published.
use tactile.Base.{◌≡◌, ◌⊎◌, List, [], ◌∷◌, Text}
use tactile.Sync.{RemoteFileEntry}

-- The manifest's entries hold their contents in the blob, those of deleted files included.
abbrev pub NamesBlob : List (Text × RemoteFileEntry) → Text → Type 0
NamesBlob [] id = ⊥
NamesBlob ((rel, entry) ∷ files) id = (entry.b ≡ id) ⊎ NamesBlob files id

abbrev pub Member : Text → List Text → Type 0
Member id [] = ⊥
Member id (x ∷ ids) = (x ≡ id) ⊎ Member id ids
