-- ===== src/IdbFs/Tree.antt =====
-- The invariant of the records: they form a tree of directories below the root.
use tactile.Base.{
  Option-cases, dom, List, Bool, true, false, ◌≡◌, refl, sym, ap, ◌∙◌, ◌⊎◌, inl, inr, Option, some,
  none, Text, text_eq, text_eq_iff, Result, ok, err, Failure, storage, not_found, Bool-cases,
  if◌then◌else◌,
}
use tactile.Paths.{parent_of}
use tactile.Paths.Normal.{IsNormal}
use tactile.Paths.Known.{root, is_root_known}
use tactile.Storage.{Action, ◌>>=◌, >>=-ok}
use tactile.ObjectStore.{
  ObjectStore, EntryRecord, Request, getting, putting, getting_all, committing,
}
use tactile.IdbFs.{
  Fs, is_dir, awaited, commit, transaction, get_all_records, put_record, stage_put, get_record,
  require_dir, require_dir_at, require_parent,
}

-- A postcondition of an action, for its result and for what it throws.
abbrev pub Holds :
    {S A : Type 0} → (A → S → Type 0) → (Failure → S → Type 0) → Result A × S → Type 0
Holds Q E (ok a, s) = Q a s
Holds Q E (err e, s) = E e s

pub Holds-bind :
    {S A B : Type 0} (R : A → S → Type 0) (Q : B → S → Type 0) (E : Failure → S → Type 0)
    (m : Action S A) (f : A → Action S B) (s : S)
    → Holds R E (m s)
    → ((a : A) (s' : S) → R a s' → Holds Q E (f a s'))
    → Holds Q E ((m >>= f) s)
Holds-bind {S} {A} {B} R Q E m f s h k = after (m s) h
  where
    after :
        (r : Result A × S)
        → Holds R E r
        → Holds Q E (elim (r.0) [ ok a ↦ f a r.1 | err e ↦ (err e, r.1) ])
    after (ok a, s') h = k a s' h
    after (err e, s') h = h

pub Holds-weaken :
    {S A : Type 0} (Q Q' : A → S → Type 0) (E E' : Failure → S → Type 0) (r : Result A × S)
    → Holds Q E r
    → ((a : A) (s : S) → Q a s → Q' a s)
    → ((e : Failure) (s : S) → E e s → E' e s)
    → Holds Q' E' r
Holds-weaken Q Q' E E' (ok a, s) h k l = k a s h
Holds-weaken Q Q' E E' (err e, s) h k l = l e s h

-- An action that throws nothing satisfies its postcondition.
pub Holds-ok :
    {S A : Type 0} (Q : A → S → Type 0) (E : Failure → S → Type 0) (r : Result A × S) {a : A}
    → Holds Q E r
    → r.0 ≡ ok a
    → Holds Q (λ _ _. ⊥) r
Holds-ok Q E (ok b, s) h e = h
Holds-ok Q E (err f, s) h e = cc

module _ (store : ObjectStore) where
  -- A path is the root, or the records have a directory there.
  abbrev pub HasDir : store.Db → Text → Type 0
  HasDir db q =
      (q ≡ root) ⊎ ((d : EntryRecord) × (store.get db q ≡ some d) × (is_dir d.kind ≡ true))

  -- A record stands at a normal path below the root, names its parent, and has it.
  pub record IsEntry (db : store.Db) (p : Text) (r : EntryRecord) : Type 0 where
    pub normal : IsNormal p
    pub below_root : text_eq p root ≡ false
    pub parent_field : r.parent ≡ parent_of p
    pub parent_dir : HasDir db (parent_of p)

  pub record IsTree (db : store.Db) : Type 0 where
    pub at : (p : Text) (r : EntryRecord) → store.get db p ≡ some r → IsEntry db p r

  -- A record may replace another unless it puts a file in the place of a directory.
  abbrev pub MayReplace : store.Db → EntryRecord → Type 0
  MayReplace db r =
      (is_dir r.kind ≡ true)
      ⊎ ((d : EntryRecord) → store.get db r.path ≡ some d → is_dir d.kind ≡ false)

  HasDir-put :
      (db : store.Db) (r : EntryRecord) (q : Text)
      → MayReplace db r
      → HasDir db q
      → HasDir (store.put db r) q
  HasDir-put db r q may (inl e) = inl e
  HasDir-put db r q may (inr (d, found, is)) = elim (Bool-cases (text_eq r.path q)) [
    | inr e ↦ inr (d, store.get-put db r q ∙ rw e found, is)
    | inl e ↦ elim may [
      | inl yes_dir ↦ inr (r, store.get-put db r q ∙ rw e refl, yes_dir)
      | inr not_dir ↦
          let here = not_dir d (ap (store.get db) ((text_eq_iff r.path q).0 e) ∙ found) in
          absurd (cc (here, is))
    ]
  ]

  -- Storing a record at a path that has a parent keeps the tree.
  pub IsTree-put :
      (db : store.Db) (r : EntryRecord)
      → IsTree db
      → IsNormal r.path
      → text_eq r.path root ≡ false
      → r.parent ≡ parent_of r.path
      → HasDir db (parent_of r.path)
      → MayReplace db r
      → IsTree (store.put db r)
  IsTree-put db r tree normal below parent has may = record {
    at = λ p q found. elim (Bool-cases (text_eq r.path p)) [
      | inl e ↦
          let same : r.path ≡ p = (text_eq_iff r.path p).0 e in
          let one : r ≡ q = some_eq r q (sym (store.get-put db r p ∙ rw e refl) ∙ found) in
          rw (← one, ← same)
            (record {
              normal = normal;
              below_root = below;
              parent_field = parent;
              parent_dir = HasDir-put db r (parent_of r.path) may has;
            })
      | inr e ↦
          let entry = tree.at p q (sym (store.get-put db r p ∙ rw e refl) ∙ found) in
          record {
            normal = entry.normal;
            below_root = entry.below_root;
            parent_field = entry.parent_field;
            parent_dir = HasDir-put db r (parent_of p) may entry.parent_dir;
          }
    ];
  }
    where
      some_eq : (r q : EntryRecord) → some r ≡ some q → r ≡ q
      some_eq r q e = cc

  -- Taking records away keeps the tree, if whatever lies below a missing record is missing too.
  pub IsTree-remove :
      (db db' : store.Db) (gone : Text → Bool)
      → IsTree db
      → ((p : Text) → store.get db' p ≡ (if gone p then none else store.get db p))
      → ((p : Text) → IsNormal p → gone (parent_of p) ≡ true → gone p ≡ true)
      → IsTree db'
  IsTree-remove db db' gone tree left closed = record {
    at = λ p q found. elim (Bool-cases (gone p)) [
      | inl e ↦
          let none_left : store.get db' p ≡ none = left p ∙ rw e refl in
          absurd (cc (found, none_left))
      | inr e ↦
          let entry = tree.at p q (sym (left p ∙ rw e refl) ∙ found) in
          record {
            normal = entry.normal;
            below_root = entry.below_root;
            parent_field = entry.parent_field;
            parent_dir = stays p e entry.normal entry.parent_dir;
          }
    ];
  }
    where
      stays :
          (p : Text)
          → gone p ≡ false
          → IsNormal p
          → HasDir db (parent_of p)
          → HasDir db' (parent_of p)
      stays p e n (inl h) = inl h
      stays p e n (inr (d, found, is)) = elim (Bool-cases (gone (parent_of p))) [
        | inl g ↦ absurd (cc (closed p n g, e))
        | inr g ↦ inr (d, left (parent_of p) ∙ rw g found, is)
      ]

  require_dir_lem :
      (missing other : Failure) (fs : Fs store) (found : Option EntryRecord)
      → Holds
          (λ _ s. (s ≡ fs) × ((d : EntryRecord) × (found ≡ some d) × (is_dir d.kind ≡ true)))
          (λ _ s. s ≡ fs)
          (require_dir store missing other found fs)
  unfolding require_dir
  require_dir_lem missing other fs none = refl
  require_dir_lem missing other fs (some r) = elim (Bool-cases (is_dir r.kind)) [
    | inl e ↦ rw e (refl, (r, refl, e))
    | inr e ↦ rw e refl
  ]

  Holds-awaited :
      {A : Type 0} (Q : A → Fs store → Type 0) (E : Failure → Fs store → Type 0) (request : Request)
      (m : Action (Fs store) A) (fs : Fs store)
      → ((e : Failure) → E e fs)
      → Holds Q E (m fs)
      → Holds Q E (awaited store request m fs)
  unfolding awaited
  Holds-awaited Q E request m fs h k = elim (Option-cases (store.refused fs.db request)) [
    | inl e ↦ rw (e, awaited, Holds) k
    | inr (x, e) ↦ rw (e, awaited, Holds) (h (dom x))
  ]

  -- A record that is asked for: the request fails, or gives what is stored.
  pub Holds-get_record :
      {A : Type 0} (Q : A → Fs store → Type 0) (E : Failure → Fs store → Type 0) (path : Text)
      (next : Option EntryRecord → Action (Fs store) A) (fs : Fs store)
      → ((e : Failure) → E e fs)
      → Holds Q E (next (store.get fs.db path) fs)
      → Holds Q E ((get_record store path >>= next) fs)
  unfolding get_record
  Holds-get_record Q E path next fs h k =
      Holds-bind (λ r s. Holds Q E (next r s)) Q E (get_record store path) next fs
        (Holds-awaited (λ r s. Holds Q E (next r s)) E (getting path)
          (λ fs. (ok (store.get fs.db path), fs)) fs h k)
        (λ _ _ k. k)

  pub Holds-get_all_records :
      {A : Type 0} (Q : A → Fs store → Type 0) (E : Failure → Fs store → Type 0)
      (next : List EntryRecord → Action (Fs store) A) (fs : Fs store)
      → ((e : Failure) → E e fs)
      → Holds Q E (next (store.get_all fs.db) fs)
      → Holds Q E ((get_all_records store >>= next) fs)
  unfolding get_all_records
  Holds-get_all_records Q E next fs h k =
      Holds-bind (λ r s. Holds Q E (next r s)) Q E (get_all_records store) next fs
        (Holds-awaited (λ r s. Holds Q E (next r s)) E getting_all
          (λ fs. (ok (store.get_all fs.db), fs)) fs h k)
        (λ _ _ k. k)

  pub Holds-put_record :
      (Q : Unit {0} → Fs store → Type 0) (E : Failure → Fs store → Type 0) (r : EntryRecord)
      (fs : Fs store)
      → ((e : Failure) → E e fs)
      → Q tt (record fs { db = store.put fs.db r })
      → Holds Q E (put_record store r fs)
  unfolding put_record stage_put
  Holds-put_record Q E r fs h k = Holds-awaited Q E (putting r) (stage_put store r) fs h k

  -- A transaction that throws changes nothing.
  pub Holds-transaction :
      {A : Type 0} (Q : A → Fs store → Type 0) (m : Action (Fs store) A) (fs : Fs store)
      → Holds Q (λ _ _. Unit) (m fs)
      → Holds Q (λ _ s. s ≡ fs) (transaction store m fs)
  unfolding transaction commit
  Holds-transaction {A} Q m fs h = done (m fs) h
    where
      done :
          (r : Result A × Fs store)
          → Holds Q (λ _ _. Unit) r
          → Holds Q (λ _ s. s ≡ fs) (commit store fs r)
      done (ok a, s) h = elim (Option-cases (store.refused s.db committing)) [
        | inl e ↦ rw (e, commit, Holds) h
        | inr (x, e) ↦ rw (e, commit, Holds) refl
      ]
      done (err e, s) h = refl

  -- No request is rejected.
  abbrev pub IsServed : Type 0
  IsServed = (db : store.Db) (request : Request) → store.refused db request ≡ none

  pub awaited-IsServed :
      {A : Type 0} (request : Request) (m : Action (Fs store) A) (fs : Fs store)
      → IsServed
      → awaited store request m fs ≡ m fs
  unfolding awaited
  awaited-IsServed request m fs served = rw (served fs.db request, awaited) refl

  pub get_record-IsServed :
      (path : Text) (fs : Fs store)
      → IsServed
      → get_record store path fs ≡ (ok (store.get fs.db path), fs)
  unfolding get_record
  get_record-IsServed path fs served =
      awaited-IsServed (getting path) (λ fs. (ok (store.get fs.db path), fs)) fs served

  pub get_all_records-IsServed :
      (fs : Fs store) → IsServed → get_all_records store fs ≡ (ok (store.get_all fs.db), fs)
  unfolding get_all_records
  get_all_records-IsServed fs served =
      awaited-IsServed getting_all (λ fs. (ok (store.get_all fs.db), fs)) fs served

  pub transaction-IsServed :
      {A : Type 0} (m : Action (Fs store) A) (fs : Fs store) {a : A}
      → IsServed
      → (m fs).0 ≡ ok a
      → transaction store m fs ≡ (ok a, (m fs).1)
  unfolding transaction commit
  transaction-IsServed {A} m fs {a} served e = done (m fs) e
    where
      done : (r : Result A × Fs store) → r.0 ≡ ok a → commit store fs r ≡ (ok a, r.1)
      done (ok b, s) e = rw (served s.db committing, commit) (ap (λ x. (x, s)) e)
      done (err f, s) e = cc

  -- Past the check, the path is the root or a directory, and nothing has changed.
  require_dir_at_lem :
      (missing other : Failure) (q : Text) (b : Bool) (fs : Fs store)
      → text_eq q root ≡ b
      → Holds
          (λ _ s. (s ≡ fs) × HasDir fs.db q)
          (λ _ s. s ≡ fs)
          (require_dir_at store missing other q b fs)
  unfolding require_dir_at
  require_dir_at_lem missing other q true fs e = (refl, inl ((text_eq_iff q root).0 e))
  require_dir_at_lem missing other q false fs e =
      Holds-get_record (λ _ s. (s ≡ fs) × HasDir fs.db q) (λ _ s. s ≡ fs) q
        (require_dir store missing other) fs (λ _. refl)
        (weaken (require_dir store missing other (store.get fs.db q) fs)
          (require_dir_lem missing other fs (store.get fs.db q)))
    where
      weaken :
          (r : Result (Unit {0}) × Fs store)
          → Holds
              (λ _ s.
                (s ≡ fs)
                × ((d : EntryRecord) × (store.get fs.db q ≡ some d) × (is_dir d.kind ≡ true)))
              (λ _ s. s ≡ fs)
              r
          → Holds (λ _ s. (s ≡ fs) × HasDir fs.db q) (λ _ s. s ≡ fs) r
      weaken (ok a, s) h = (h.0, inr h.1)
      weaken (err e, s) h = h

  pub require_parent-ok :
      (q : Text) (fs : Fs store)
      → IsNormal q
      → HasDir fs.db q
      → IsServed
      → require_parent store q fs ≡ (ok tt, fs)
  unfolding require_parent require_dir_at require_dir
  require_parent-ok q fs n has served = rw (is_root_known n) (elim (Bool-cases (text_eq q root)) [
    | inl e ↦ rw e refl
    | inr e ↦ rw e (
        >>=-ok (get_record store q) (require_dir store (storage not_found) (storage not_found)) fs
          (get_record-IsServed q fs served)
        ∙ stored e has)
  ])
    where
      stored :
          text_eq q root ≡ false
          → HasDir fs.db q
          → require_dir store (storage not_found) (storage not_found) (store.get fs.db q) fs
            ≡ (ok tt, fs)
      stored e (inl r) = absurd (cc (e, (text_eq_iff q root).1 r))
      stored e (inr (d, found, is)) = rw (found, is) refl

  pub require_parent_lem :
      (q : Text) (fs : Fs store)
      → IsNormal q
      → Holds (λ _ s. (s ≡ fs) × HasDir fs.db q) (λ _ s. s ≡ fs) (require_parent store q fs)
  unfolding require_parent
  require_parent_lem q fs n =
      rw (is_root_known n) (require_dir_at_lem _ _ q (text_eq q root) fs refl)
