-- ===== src/Tests/AppTests.antt =====
-- The theorems on notes, folders and the trash, with the backend in memory.
use tactile.Base.{false, some, none, [], ◌∷◌, Text, codes, ◌==◌, ok}
use tactile.Tests.MemoryBackend.{memory}
use tactile.App.{Environment, App, TrashItem, tactile_trash, edit}
use tactile.App.Notes.{open_note}
use tactile.App.Open.{Opened, Opened-open_note}

abbrev note : Text
note = codes "/n/a.md"

abbrev old : TrashItem
old = record {
  name = codes "a.md";
  original_path = note;
  deleted_at = codes "2025-01-02T03:04:05.000Z";
  is_folder = false;
}

abbrev environment : Environment
environment = record {
  backend = memory;
  get_storage = λ w. (ok tt, w);
  move_to_system_trash = none;
  parse_manifest = λ _. some (old ∷ []);
  stringify_manifest = λ _. codes "{}";
  markdown = λ s. s;
  to_lower = λ s. s;
  same = λ a b. a == b;
}

-- One note is open and dirty, and one entry is in the trash.
abbrev app : App environment
app = record {
  world = (note, codes "# T\nhi") ∷ (codes "/n/.tactile/trash.json", codes "{}") ∷ [];
  collection = codes "/n";
  trash_dir = tactile_trash;
  active_file = some note;
  dirty_path = some note;
  source_content = codes "# T\nhi";
  editor_content = codes "# T\nhi";
  editor_mode = edit;
  note_history = note ∷ [];
  toasts = [];
}

Opened-open_note_example :
    Opened environment (codes "/n/b.md") app (open_note environment (codes "/n/b.md") false app)
Opened-open_note_example = Opened-open_note environment (codes "/n/b.md") false app
