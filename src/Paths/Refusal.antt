-- ===== src/Paths/Refusal.antt =====
-- The path functions throw one error only.
use tactile.Base.{
  ◌≡◌, refl, List, [], ◌∷◌, Text, text_eq, Result, ok, err, storage, invalid_path, ◌>>=◌, codes,
  Bool-cases, inl, inr, split, ◌||◌,
}
use tactile.Paths.{slash, collect_segments, normalize_path, path_segments, from_segments}

-- What is thrown, if anything, is the `StorageError` of an invalid path.
abbrev pub Refuses {ℓ} : {A : Type ℓ} → Result A → Type 0
Refuses (ok a) = Unit
Refuses (err e) = e ≡ storage invalid_path

Refuses-bind {ℓ} :
    {A B : Type ℓ} (r : Result A) (f : A → Result B)
    → Refuses r
    → ((a : A) → Refuses (f a))
    → Refuses (r >>= f)
Refuses-bind (ok a) f h k = k a
Refuses-bind (err e) f h k = h

collect_segments-Refuses : (parts : List Text) → Refuses (collect_segments parts)
unfolding collect_segments
collect_segments-Refuses [] = tt
collect_segments-Refuses (p ∷ ps) = elim (Bool-cases (text_eq p [] || text_eq p (codes "."))) [
  | inl skip ↦ rw skip (collect_segments-Refuses ps)
  | inr keep ↦ elim (Bool-cases (text_eq p (codes ".."))) [
    | inl up ↦ rw (keep, up) refl
    | inr fine ↦
        rw (keep, fine)
          (Refuses-bind (collect_segments ps) (λ segments. ok (p ∷ segments))
            (collect_segments-Refuses ps) (λ segments. tt))
  ]
]

pub normalize_path-Refuses : (path : Text) → Refuses (normalize_path path)
unfolding normalize_path
normalize_path-Refuses [] = refl
normalize_path-Refuses (c ∷ cs) =
    Refuses-bind (collect_segments (split slash (c ∷ cs))) (λ segments. ok (from_segments segments))
      (collect_segments-Refuses (split slash (c ∷ cs))) (λ segments. tt)

pub path_segments-Refuses : (path : Text) → Refuses (path_segments path)
unfolding path_segments
path_segments-Refuses path =
    Refuses-bind (normalize_path path) _ (normalize_path-Refuses path) (λ n. tt)
