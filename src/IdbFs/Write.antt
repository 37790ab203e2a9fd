-- ===== src/IdbFs/Write.antt =====
-- `writeRecord` and the two write operations: the tree stays one, the file holds what was written,
-- and nothing else changes.
use tactile.Base.{
  ℕ, false, ◌≡◌, refl, ap, ◌∙◌, ◌⊎◌, inl, inr, Option, some, none, List, Text, text_eq,
  text_eq_refl, Result, ok, err, arith, Bool-cases, if◌then◌else◌, Ensures-ok, length,
}
use tactile.Paths.{normalize_path, parent_of}
use tactile.Paths.Normal.{IsNormal, normalize_path-IsNormal}
use tactile.Paths.Known.{root, parent_path_known, parent_of-IsNormal}
use tactile.Storage.{
  ◌>>=◌, >>=-ok, pure, BackendOptions, FileData, text, lift, write, origin_or_local,
}
use tactile.ObjectStore.{ObjectStore, EntryRecord, file, putting}
use tactile.IdbFs.{
  stage_put, Fs, is_dir, get_record, put_record, emit_change, refuse_dir, store_file, write_at,
  write_record, require_parent, write_text_file, read_text_file, get_file_record, require_file,
  as_text, utf8_encode,
}
use tactile.IdbFs.Tree.{
  Holds, Holds-bind, Holds-get_record, Holds-put_record, IsServed, awaited-IsServed,
  get_record-IsServed, HasDir, IsTree, IsTree-put, require_parent_lem, require_parent-ok,
}

module _ (store : ObjectStore) where
  -- What a write at the normal path `n` leaves.
  pub record Written (fs : Fs store) (n : Text) (contents : FileData) (s : Fs store) : Type 0 where
    pub tree : IsTree store s.db
    pub entry : EntryRecord
    pub is_file : is_dir entry.kind ≡ false
    pub holds : entry.contents ≡ contents
    pub at : (q : Text) → store.get s.db q ≡ (if text_eq n q then some entry else store.get fs.db q)

  store_file-Written :
      (now : ℕ) (n : Text) (contents : FileData) (size : ℕ) (options : BackendOptions) (ctime : ℕ)
      (fs : Fs store)
      → IsTree store fs.db
      → IsNormal n
      → text_eq n root ≡ false
      → HasDir store fs.db (parent_of n)
      → ((d : EntryRecord) → store.get fs.db n ≡ some d → is_dir d.kind ≡ false)
      → Holds
          (λ _ s. Written fs n contents s)
          (λ _ s. s ≡ fs)
          (store_file store now n (parent_of n) contents size options ctime fs)
  unfolding store_file
  store_file-Written now n contents size options ctime fs tree normal below has free =
      let entry : EntryRecord = record {
        path = n;
        parent = parent_of n;
        kind = file;
        contents = contents;
        size = size;
        mtime = now;
        ctime = ctime;
      } in
      Holds-bind (λ _ s. s.db ≡ store.put fs.db entry) (λ _ s. Written fs n contents s)
        (λ _ s. s ≡ fs) (put_record store entry)
        (λ _.
          emit_change store
            (record { path = n; kind = write; origin = origin_or_local options; old_path = none }))
        fs
        (Holds-put_record store (λ _ s. s.db ≡ store.put fs.db entry) (λ _ s. s ≡ fs) entry fs
          (λ _. refl) refl)
        λ _ s e.
          unfold emit_change in
          record {
            tree = rw e (IsTree-put store fs.db entry tree normal below refl has (inr free));
            entry = entry;
            is_file = refl;
            holds = refl;
            at = λ q. rw e (store.get-put fs.db entry q);
          }

  refuse_dir_lem :
      (found : Option EntryRecord) (now : ℕ) (fs : Fs store)
      → Holds
          (λ _ s. (s ≡ fs) × ((d : EntryRecord) → found ≡ some d → is_dir d.kind ≡ false))
          (λ _ s. s ≡ fs)
          (refuse_dir store found now fs)
  unfolding refuse_dir
  refuse_dir_lem none now fs = (refl, λ d e. absurd (cc e))
  refuse_dir_lem (some r) now fs = elim (Bool-cases (is_dir r.kind)) [
    | inl e ↦ rw e refl
    | inr e ↦ rw e (refl, λ d same. ground arith)
  ]

  write_at-Written :
      (now : ℕ) (n : Text) (contents : FileData) (size : ℕ) (options : BackendOptions)
      (fs : Fs store)
      → IsTree store fs.db
      → IsNormal n
      → text_eq n root ≡ false
      → HasDir store fs.db (parent_of n)
      → Holds
          (λ _ s. Written fs n contents s)
          (λ _ s. s ≡ fs)
          (write_at store now n (parent_of n) contents size options fs)
  unfolding write_at
  write_at-Written now n contents size options fs tree normal below has =
      Holds-get_record store (λ _ s. Written fs n contents s) (λ _ s. s ≡ fs) n
        (λ found.
          refuse_dir store found now >>= store_file store now n (parent_of n) contents size options)
        fs (λ _. refl)
        (Holds-bind
          (λ _ s.
            (s ≡ fs) × ((d : EntryRecord) → store.get fs.db n ≡ some d → is_dir d.kind ≡ false))
          (λ _ s. Written fs n contents s) (λ _ s. s ≡ fs)
          (refuse_dir store (store.get fs.db n) now)
          (store_file store now n (parent_of n) contents size options) fs
          (refuse_dir_lem (store.get fs.db n) now fs)
          λ ctime s h.
            rw (h.0)
              (store_file-Written now n contents size options ctime fs tree normal below has h.1))

  -- A write to a path that is not the root throws and changes nothing, or leaves a tree in which
  -- the path is a file with the contents and every other path is as it was.
  pub write_record_lem :
      (now : ℕ) (path n : Text) (contents : FileData) (size : ℕ) (options : BackendOptions)
      (fs : Fs store)
      → IsTree store fs.db
      → normalize_path path ≡ ok n
      → text_eq n root ≡ false
      → Holds
          (λ _ s. Written fs n contents s)
          (λ _ s. s ≡ fs)
          (write_record store now path contents size options fs)
  unfolding write_record
  write_record_lem now path n contents size options fs tree normalized below =
      let normal =
        Ensures-ok IsNormal (normalize_path path) (normalize_path-IsNormal path) normalized in
      rw (normalized, parent_path_known normal)
        (Holds-bind (λ _ s. (s ≡ fs) × HasDir store fs.db (parent_of n))
          (λ _ s. Written fs n contents s) (λ _ s. s ≡ fs) (require_parent store (parent_of n))
          (λ _. write_at store now n (parent_of n) contents size options) fs
          (require_parent_lem store (parent_of n) fs (parent_of-IsNormal normal))
          (λ _ s h.
            rw (h.0) (write_at-Written now n contents size options fs tree normal below h.1)))

  -- Nothing, or a file, stands at the path.
  abbrev pub NoDirAt : store.Db → Text → Type 0
  NoDirAt db n =
      (store.get db n ≡ none)
      ⊎ ((r : EntryRecord) × (store.get db n ≡ some r) × (is_dir r.kind ≡ false))

  store_file-ok :
      (now : ℕ) (n parent : Text) (contents : FileData) (size : ℕ) (options : BackendOptions)
      (ctime : ℕ) (fs : Fs store)
      → IsServed store
      → (store_file store now n parent contents size options ctime fs).0 ≡ ok tt
  unfolding store_file put_record stage_put emit_change
  store_file-ok now n parent contents size options ctime fs served =
      let entry : EntryRecord = record {
        path = n;
        parent = parent;
        kind = file;
        contents = contents;
        size = size;
        mtime = now;
        ctime = ctime;
      } in
      ap (λ r. r.0)
        (>>=-ok (put_record store entry)
          (λ _.
            emit_change store (record {
              path = n;
              kind = write;
              origin = origin_or_local options;
              old_path = none;
            }))
          fs (awaited-IsServed store (putting entry) (stage_put store entry) fs served))

  write_at-ok :
      (now : ℕ) (n parent : Text) (contents : FileData) (size : ℕ) (options : BackendOptions)
      (fs : Fs store)
      → IsServed store
      → NoDirAt fs.db n
      → (write_at store now n parent contents size options fs).0 ≡ ok tt
  unfolding write_at refuse_dir
  write_at-ok now n parent contents size options fs served free =
      ap (λ r. r.0)
        (>>=-ok (get_record store n)
          (λ found.
            refuse_dir store found now >>= store_file store now n parent contents size options)
          fs (get_record-IsServed store n fs served))
      ∙ elim free [
        | inl e ↦ rw e (store_file-ok now n parent contents size options now fs served)
        | inr (r, e, is_file) ↦
            rw (e, is_file) (store_file-ok now n parent contents size options r.ctime fs served)
      ]

  write_record-ok :
      (now : ℕ) (path n : Text) (contents : FileData) (size : ℕ) (options : BackendOptions)
      (fs : Fs store)
      → normalize_path path ≡ ok n
      → HasDir store fs.db (parent_of n)
      → NoDirAt fs.db n
      → IsServed store
      → (write_record store now path contents size options fs).0 ≡ ok tt
  unfolding write_record
  write_record-ok now path n contents size options fs normalized has free served =
      let normal =
        Ensures-ok IsNormal (normalize_path path) (normalize_path-IsNormal path) normalized in
      rw (normalized, parent_path_known normal)
        (ap (λ r. r.0)
            (>>=-ok (require_parent store (parent_of n))
              (λ _. write_at store now n (parent_of n) contents size options) fs
              (require_parent-ok store (parent_of n) fs (parent_of-IsNormal normal) has served))
          ∙ write_at-ok now n (parent_of n) contents size options fs served free)

  get_file_record_lem :
      (path n : Text) (r : EntryRecord) (s : Fs store)
      → normalize_path path ≡ ok n
      → store.get s.db n ≡ some r
      → is_dir r.kind ≡ false
      → IsServed store
      → get_file_record store path s ≡ (ok r, s)
  unfolding get_file_record require_file
  get_file_record_lem path n r s normalized stored is_file served =
      >>=-ok (lift (normalize_path path)) (λ n. get_record store n >>= require_file store) s
        (ap (λ m. (m, s)) normalized)
      ∙ >>=-ok (get_record store n) (require_file store) s (get_record-IsServed store n s served)
      ∙ ap (λ found. require_file store found s) stored
      ∙ rw is_file refl

  pub read_text_file_lem :
      (decode : List ℕ → Text) (path n : Text) (r : EntryRecord) (s : Fs store)
      → normalize_path path ≡ ok n
      → store.get s.db n ≡ some r
      → is_dir r.kind ≡ false
      → IsServed store
      → read_text_file store decode path s ≡ (ok (as_text store decode r.contents), s)
  unfolding read_text_file
  read_text_file_lem decode path n r s normalized stored is_file served =
      >>=-ok (get_file_record store path) (λ r. pure (as_text store decode r.contents)) s
        (get_file_record_lem path n r s normalized stored is_file served)

  -- Where the parent is there, no directory is in the way and no request of the object store is
  -- rejected, a write throws nothing, and reading the file then gives the text back.
  pub read-write_text_file :
      (decode : List ℕ → Text) (now : ℕ) (path n contents : Text) (options : BackendOptions)
      (fs : Fs store)
      → IsTree store fs.db
      → normalize_path path ≡ ok n
      → text_eq n root ≡ false
      → HasDir store fs.db (parent_of n)
      → NoDirAt fs.db n
      → IsServed store
      → Holds
          (λ _ s. (read_text_file store decode path s).0 ≡ ok contents)
          (λ _ _. ⊥)
          (write_text_file store now path contents options fs)
  unfolding write_text_file
  read-write_text_file decode now path n contents options fs tree normalized below has free served =
      after (write_record store now path (text contents) (length (utf8_encode contents)) options fs)
        (write_record_lem now path n (text contents) (length (utf8_encode contents)) options fs tree
          normalized below)
        (write_record-ok now path n (text contents) (length (utf8_encode contents)) options fs
          normalized has free served)
    where
      after :
          (r : Result (Unit {0}) × Fs store)
          → Holds (λ _ s. Written fs n (text contents) s) (λ _ s. s ≡ fs) r
          → r.0 ≡ ok tt
          → Holds (λ _ s. (read_text_file store decode path s).0 ≡ ok contents) (λ _ _. ⊥) r
      after (ok a, s) w e =
          ap (λ r. r.0)
            (read_text_file_lem decode path n w.entry s normalized
              (w.at n ∙ rw (text_eq_refl n) refl) w.is_file served)
          ∙ ap (λ c. ok (as_text store decode c)) w.holds
          ∙ unfold as_text in refl
      after (err e, s) h f = cc
