-- ===== src/ObjectStore/Memory.antt =====
-- An object store kept in a list: the behaviour asked of the parameter can be had.
use tactile.Base.{
  Bool, true, false, ◌≡◌, refl, sym, ap, ◌∙◌, ◌⊎◌, inl, inr, Option, some, none, List, [], ◌∷◌,
  Text, text_eq, text_eq_iff, text_eq_refl, arith, Bool-cases, if◌then◌else◌, filter,
}
use tactile.ObjectStore.{ObjectStore, EntryRecord, In}

unfoldable pub get : List EntryRecord → Text → Option EntryRecord
get [] p = none
get (r ∷ db) p = if text_eq r.path p then some r else get db p

unfoldable pub without : Text → List EntryRecord → List EntryRecord
without q [] = []
without q (r ∷ db) = let rest = without q db in if text_eq r.path q then rest else r ∷ rest

unfoldable pub get_all : List EntryRecord → List EntryRecord
unfolding without
get_all [] = []
get_all (r ∷ db) = r ∷ without r.path (get_all db)

pub get-key : (db : List EntryRecord) (p : Text) (r : EntryRecord) → get db p ≡ some r → r.path ≡ p
unfolding get
get-key [] p r h = cc
get-key (x ∷ db) p r h = elim (Bool-cases (text_eq x.path p)) [
  | inl e ↦
      let same : x ≡ r = ground arith in ap (λ y. y.path) (sym same) ∙ (text_eq_iff x.path p).0 e
  | inr e ↦ get-key db p r (ground arith)
]

pub get-without :
    (db : List EntryRecord) (q p : Text)
    → get (without q db) p ≡ (if text_eq q p then none else get db p)
unfolding get without
get-without [] q p = ground arith
get-without (r ∷ db) q p =
    ground (arith, get-without db q p, text_eq_iff r.path q, text_eq_iff q p, text_eq_iff r.path p)

In-without :
    (r : EntryRecord) (q : Text) (db : List EntryRecord)
    → In r (without q db)
    → In r db × (text_eq r.path q ≡ false)
unfolding without
In-without r q [] h = absurd h
In-without r q (x ∷ db) h = elim (Bool-cases (text_eq x.path q)) [
  | inl e ↦ let deeper = In-without r q db (rw (e, without) at h) in (inr deeper.0, deeper.1)
  | inr e ↦ split x e (In-without r q db) (rw (e, without) at h)
]
  where
    split :
        (x : EntryRecord)
        → text_eq x.path q ≡ false
        → (In r (without q db) → In r db × (text_eq r.path q ≡ false))
        → (r ≡ x) ⊎ In r (without q db)
        → In r (x ∷ db) × (text_eq r.path q ≡ false)
    split x e ih (inl same) = (inl same, ap (λ y. text_eq y.path q) same ∙ e)
    split x e ih (inr k) = (inr (ih k).0, (ih k).1)

without-In :
    (r : EntryRecord) (q : Text) (db : List EntryRecord)
    → In r db
    → text_eq q r.path ≡ false
    → In r (without q db)
unfolding without
without-In r q [] h e = absurd h
without-In r q (x ∷ db) (inl same) e =
    let other : text_eq x.path q ≡ false =
      apart x.path q (ap (λ y. text_eq q y.path) (sym same) ∙ e) in
    rw other (inl same)
  where
    apart : (a b : Text) → text_eq b a ≡ false → text_eq a b ≡ false
    apart a b h = elim (Bool-cases (text_eq a b)) [
      | inr k ↦ k
      | inl k ↦ absurd (cc (h, (text_eq_iff b a).1 (sym ((text_eq_iff a b).0 k))))
    ]
without-In r q (x ∷ db) (inr h) e = elim (Bool-cases (text_eq x.path q)) [
  | inl k ↦ rw k (without-In r q db h e)
  | inr k ↦ rw k (inr (without-In r q db h e))
]

pub get_all_sound :
    (db : List EntryRecord) (r : EntryRecord) → In r (get_all db) → get db r.path ≡ some r
unfolding get_all get
get_all_sound [] r h = absurd h
get_all_sound (x ∷ db) r (inl same) = rw same (rw (text_eq_refl x.path) refl)
get_all_sound (x ∷ db) r (inr h) =
    let deeper = In-without r x.path (get_all db) h in
    let ih = get_all_sound db r deeper.0 in
    ground (arith, ih, deeper.1, text_eq_iff x.path r.path, text_eq_iff r.path x.path)

pub get_all_complete :
    (db : List EntryRecord) (p : Text) (r : EntryRecord) → get db p ≡ some r → In r (get_all db)
unfolding get_all get
get_all_complete [] p r h = absurd (cc h)
get_all_complete (x ∷ db) p r h = elim (Bool-cases (text_eq x.path p)) [
  | inl e ↦ inl (ground arith)
  | inr e ↦
      let found : get db p ≡ some r = ground arith in
      let key = get-key db p r found in
      inr (
        without-In r x.path (get_all db) (get_all_complete db p r found)
          (ap (text_eq x.path) key ∙ e))
]

unfoldable pub get_by_parent : List EntryRecord → Text → List EntryRecord
get_by_parent db q = filter (λ r. text_eq r.parent q) (get_all db)

In-filter :
    (q : Text) (r : EntryRecord) (rs : List EntryRecord)
    → In r (filter (λ x. text_eq x.parent q) rs)
    → In r rs × (r.parent ≡ q)
In-filter q r [] h = absurd h
In-filter q r (x ∷ rs) h = split (text_eq x.parent q) refl (In-filter q r rs) h
  where
    split :
        (b : Bool)
        → text_eq x.parent q ≡ b
        → (In r (filter (λ x. text_eq x.parent q) rs) → In r rs × (r.parent ≡ q))
        → In r (
            if b
            then x ∷ filter (λ x. text_eq x.parent q) rs
            else filter (λ x. text_eq x.parent q) rs)
        → In r (x ∷ rs) × (r.parent ≡ q)
    split true e ih (inl same) = (inl same, ap (λ y. y.parent) same ∙ (text_eq_iff x.parent q).0 e)
    split true e ih (inr k) = (inr (ih k).0, (ih k).1)
    split false e ih k = (inr (ih k).0, (ih k).1)

filter-In :
    (r : EntryRecord) (rs : List EntryRecord)
    → In r rs
    → In r (filter (λ x. text_eq x.parent r.parent) rs)
filter-In r [] h = absurd h
filter-In r (x ∷ rs) (inl same) =
    rw ((text_eq_iff x.parent r.parent).1 (ap (λ y. y.parent) (sym same))) (inl same)
filter-In r (x ∷ rs) (inr h) = elim (Bool-cases (text_eq x.parent r.parent)) [
  | inl e ↦ rw e (inr (filter-In r rs h))
  | inr e ↦ rw e (filter-In r rs h)
]

pub by_parent_sound :
    (db : List EntryRecord) (q : Text) (r : EntryRecord)
    → In r (get_by_parent db q)
    → (get db r.path ≡ some r) × (r.parent ≡ q)
unfolding get_by_parent
by_parent_sound db q r h =
    let parts = In-filter q r (get_all db) h in (get_all_sound db r parts.0, parts.1)

pub by_parent_complete :
    (db : List EntryRecord) (p : Text) (r : EntryRecord)
    → get db p ≡ some r
    → In r (get_by_parent db r.parent)
unfolding get_by_parent
by_parent_complete db p r h = filter-In r (get_all db) (get_all_complete db p r h)

pub get-put :
    (db : List EntryRecord) (r : EntryRecord) (p : Text)
    → get (r ∷ db) p ≡ (if text_eq r.path p then some r else get db p)
unfolding get
get-put db r p = refl

unfoldable pub memory : ObjectStore
memory = record {
  Db = List EntryRecord;
  refused = λ _ _. none;
  get = get;
  put = λ db r. r ∷ db;
  delete = λ db q. without q db;
  get_all = get_all;
  get_by_parent = get_by_parent;
  get-key = get-key;
  get-put = get-put;
  get-delete = get-without;
  get_all_sound = get_all_sound;
  get_all_complete = get_all_complete;
  get_by_parent_sound = by_parent_sound;
  get_by_parent_complete = by_parent_complete;
}
