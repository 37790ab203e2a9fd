-- ===== src/Zip/Safe.antt =====
-- A sanitised name does not lead out of the directory that an archive is unpacked in.
use tactile.Base.{
  true, false, ◌≡◌, List, [], ◌∷◌, Text, text_eq, codes, All, filter, Lacks, Bool-cases, inl, inr,
  arith,
}
use tactile.Paths.{slash}
use tactile.Zip.{is_kept}

-- Neither '.' nor '..'.
abbrev pub IsPlain : Text → Type 0
IsPlain s = (text_eq s (codes ".") ≡ false) × (text_eq s (codes "..") ≡ false)

kept-IsPlain : (s : Text) → is_kept s ≡ true → IsPlain s
unfolding is_kept
kept-IsPlain s h = (ground arith, ground arith)

-- What a filter leaves passes the test, and has what all had.
pub All-filter :
    (ss : List Text)
    → All (Lacks slash) ss
    → All (Lacks slash) (filter is_kept ss) × All IsPlain (filter is_kept ss)
All-filter [] h = (tt, tt)
All-filter (s ∷ ss) h =
    let rest = All-filter ss h.1 in
    elim (Bool-cases (is_kept s)) [
      | inl e ↦ rw e ((h.0, rest.0), (kept-IsPlain s e, rest.1))
      | inr e ↦ rw e rest
    ]
