-- ===== src/App/Notes.antt =====
-- packages/core/src/api/notes.ts. `now` and `iso` are the time of the call, for the trash.
use tactile.Base.{
  ℕ, Bool, true, false, not, ◌&&◌, ◌||◌, Option, some, none, List, [], ◌∷◌, ◌++◌, map, Text, codes,
  plain, text_eq, any, drop, starts_with, split, if◌then◌else◌, ◌==◌, leb,
}
use tactile.Storage.{Action, ◌>>=◌, ◌>>◌, pure, throw, DirEntry}
use tactile.Storage.Backend.{catch, no_options, recursively}
use tactile.Naming.{ends_with, get_next_untitled_name, number_between}
use tactile.App.{
  with_storage, Environment, App, TrashDir, system_trash, tactile_trash, delete_for_good,
  EditorMode, edit, view, source, success, error, call, get_app, change, toast, detached,
  read_dir_or_empty, file_name, single_slash, in_dir, last_of,
}
use tactile.App.Trash.{move_to_trash}

-- `.` of a regular expression matches none of these.
unfoldable pub is_line_end : ℕ → Bool
is_line_end c = c == 10 || c == 13 || c == 0x2028 || c == 0x2029

-- What follows `.*\n`, where it matches.
unfoldable pub after_line : Text → Option Text
unfolding is_line_end
after_line [] = none
after_line (c ∷ cs) =
    let later = after_line cs in if c == 10 then some cs else if is_line_end c then none else later

unfoldable pub or_else : Option Text → Text → Text
or_else none s = s
or_else (some t) s = t

-- `content.replace(/^# .*\n/, '')`
unfoldable pub strip_heading : Text → Text
unfolding after_line or_else
strip_heading s = if starts_with s (codes "# ") then or_else (after_line (drop 2 s)) s else s

-- Neither `null` nor the empty string.
unfoldable pub is_set : Option Text → Bool
is_set none = false
is_set (some []) = false
is_set (some (c ∷ cs)) = true

unfoldable pub is_source : EditorMode → Bool
is_source edit = false
is_source view = false
is_source source = true

-- The path of the dirty note, once that note has moved.
unfoldable pub moved_dirty : Text → Text → Option Text → Option Text
moved_dirty from to none = none
moved_dirty from to (some d) = if text_eq d from then some to else some d

unfoldable pub clean_dirty : Text → Option Text → Option Text
clean_dirty path none = none
clean_dirty path (some d) = if text_eq d path then none else some d

-- The history with a path pushed, unless it is the last one.
unfoldable pub pushed : Text → List Text → List Text
pushed path [] = path ∷ []
pushed path (x ∷ []) = if text_eq x path then x ∷ [] else x ∷ path ∷ []
pushed path (x ∷ y ∷ rest) = x ∷ pushed path (y ∷ rest)

unfoldable pub with_extension : Text → Text
unfolding ends_with
with_extension name = if ends_with name (codes ".md") then name else name ++ codes ".md"

-- The characters that `renameNote` removes.
unfoldable pub is_breaking : ℕ → Bool
is_breaking c = any (λ b. b == c) (codes "/\\?%*:|\"<>")

-- `\s`
unfoldable pub is_space : ℕ → Bool
is_space c =
    (leb 9 c && leb c 13)
    || (leb 0x2000 c && leb c 0x200a)
    || any (λ b. b == c)
        (32 ∷ 160 ∷ 0x1680 ∷ 0x2028 ∷ 0x2029 ∷ 0x202f ∷ 0x205f ∷ 0x3000 ∷ 0xfeff ∷ [])

-- `\(\d+\)$`
unfoldable pub is_copy_mark : Text → Bool
unfolding number_between
is_copy_mark s = elim (number_between (λ a b. a == b) (codes "(") (codes ")") s) [
  | none ↦ false
  | some i ↦ true
]

-- `s.replace(/\s\(\d+\)$/, '')`
unfoldable pub strip_copy : Text → Text
unfolding is_space is_copy_mark
strip_copy [] = []
strip_copy (c ∷ cs) =
    let later = c ∷ strip_copy cs in if is_space c && is_copy_mark cs then [] else later

-- `s.split('.').shift()!`
unfoldable pub first_of : List Text → Text
first_of [] = []
first_of (x ∷ xs) = x

unfoldable pub stem_of : Text → Text
unfolding strip_copy first_of file_name
stem_of path = strip_copy (first_of (split b'.' (file_name path)))

-- `path.split('.').pop()!`
unfoldable pub extension_of : Text → Text
unfolding last_of
extension_of path = last_of path (split b'.' path)

-- Any entry has the name, or one that differs from it in case only.
unfoldable pub has_name : Text → List DirEntry → Bool
has_name name entries = any (λ (e : DirEntry). text_eq e.name name) entries

unfoldable pub has_folded : (Text → Text) → Text → List DirEntry → Bool
has_folded to_lower name entries =
    any (λ (e : DirEntry). text_eq (to_lower e.name) (to_lower name)) entries

unfoldable pub has_folded_file : (Text → Text) → Text → List DirEntry → Bool
has_folded_file to_lower name entries =
    any (λ (e : DirEntry). text_eq (to_lower e.name) (to_lower name) && not e.is_directory) entries

module _ (env : Environment) where
  unfoldable pub content_of : App env → Text
  unfolding is_source
  content_of app =
      if is_source app.editor_mode then app.source_content else env.markdown app.editor_content

  unfoldable pub save_note : Text → Action (App env) (Unit {0})
  unfolding with_storage get_app is_set call strip_heading content_of
  save_note path = do
    app ← get_app env
    (if text_eq path [] || not (is_set app.active_file)
        then pure tt
        else with_storage env (
            call env
              (env.backend.write_text_file path (strip_heading (content_of app)) no_options)))

  unfoldable pub clear_dirty : Action (App env) (Unit {0})
  unfolding change
  clear_dirty = change env (λ a. record a { dirty_path = none })

  -- The pending edits of the previous note; a failure to save them is logged.
  unfoldable pub save_pending : Option Text → Action (App env) (Unit {0})
  unfolding clear_dirty catch save_note
  save_pending none = pure tt
  save_pending (some []) = pure tt
  save_pending (some (c ∷ cs)) = do clear_dirty; catch (save_note (c ∷ cs)) (λ _. pure tt)

  -- The editor and the state with the contents of a note.
  unfoldable pub show_note : Text → Bool → Text → Action (App env) (Unit {0})
  unfolding change pushed
  show_note path skip_history contents = change env (λ a. record a {
    source_content = contents;
    active_file = some path;
    editor_content = contents;
    dirty_path = none;
    note_history = if skip_history then a.note_history else pushed path a.note_history;
  })

  unfoldable pub open_note : Text → Bool → Action (App env) (Unit {0})
  unfolding with_storage get_app save_pending call show_note
  open_note path skip_history = with_storage env (do
    app ← get_app env
    save_pending app.dirty_path
    contents ← call env (env.backend.read_text_file path)
    show_note path skip_history contents)

  -- The name of a new note; one that is given must be free.
  unfoldable pub new_note_name : List DirEntry → Option Text → Action (App env) Text
  unfolding get_next_untitled_name with_extension has_folded
  new_note_name entries none = pure (
      get_next_untitled_name env.to_lower env.same (map (λ (e : DirEntry). e.name) entries)
        (codes "Untitled") (codes ".md"))
  new_note_name entries (some []) = pure (
      get_next_untitled_name env.to_lower env.same (map (λ (e : DirEntry). e.name) entries)
        (codes "Untitled") (codes ".md"))
  new_note_name entries (some (c ∷ cs)) =
      if has_folded env.to_lower (with_extension (c ∷ cs)) entries
      then throw plain
      else pure (with_extension (c ∷ cs))

  unfoldable pub create_note : Text → Option Text → Action (App env) (Unit {0})
  unfolding with_storage read_dir_or_empty new_note_name call single_slash detached open_note
  create_note dir name = with_storage env (do
    entries ← read_dir_or_empty env dir
    chosen ← new_note_name entries name
    call env (env.backend.mkdir dir recursively)
    call env (env.backend.write_text_file (single_slash (in_dir dir chosen)) [] no_options)
    detached env (open_note (single_slash (in_dir dir chosen)) false))

  -- `platform().moveToSystemTrash`, or the collection's own trash.
  unfoldable pub to_system_trash :
      ℕ
      → Text
      → Text
      → Bool
      → Option (Text → Action env.backend.World (Unit {0}))
      → Action (App env) (Unit {0})
  unfolding move_to_trash call
  to_system_trash now iso path is_folder none = move_to_trash env now iso path is_folder
  to_system_trash now iso path is_folder (some m) = call env (m path)

  unfoldable pub discard : ℕ → Text → Text → TrashDir → Action (App env) (Unit {0})
  unfolding call to_system_trash move_to_trash
  discard now iso path delete_for_good = call env (env.backend.remove path no_options)
  discard now iso path system_trash = to_system_trash now iso path false env.move_to_system_trash
  discard now iso path tactile_trash = move_to_trash env now iso path false

  -- Whether an action went through; a failure is shown in a toast.
  unfoldable pub attempt : Action (App env) (Unit {0}) → Action (App env) Bool
  unfolding catch toast
  attempt m = catch (m >> pure true) (λ _. toast env error >> pure false)

  -- The deleted note is neither dirty nor active any more.
  unfoldable pub after_delete : Text → Action (App env) (Unit {0})
  unfolding change clean_dirty toast
  after_delete path = do
    change env (λ a. record a { dirty_path = clean_dirty path a.dirty_path; active_file = none })
    toast env success

  unfoldable pub delete_note : ℕ → Text → Text → Action (App env) (Unit {0})
  unfolding with_storage get_app attempt discard after_delete
  delete_note now iso path = with_storage env (do
    app ← get_app env
    done ← attempt (discard now iso path app.trash_dir)
    (if done then after_delete path else pure tt))

  unfoldable pub close_note : Action (App env) (Unit {0})
  unfolding change
  close_note = change env (λ a. record a { active_file = none })
