-- ===== src/Format/Guard.antt =====
-- A store of a newer layout is refused.
use tactile.Base.{
  ℕ, suc, ◌*◌, ◌≡◌, true, false, ◌≤◌, Option, some, none, Text, codes, Result, ok, err, Ensures,
  arith, inl, inr, Bool-cases,
}
use tactile.Storage.{Action, ◌>>=◌, ◌>>◌, pure}
use tactile.Storage.Backend.{Backend, recursively, no_version}
use tactile.Format.{
  Number, fraction, infinite, exceeds, FormatMeta, storage_format_version, format_meta_path,
  read_format_meta, write_format_meta, check_version, ensure_format_version,
}

-- What a chain of actions gives is what its last one gives.
Ensures-then_action :
    {S A B : Type 0} (P : B → Type 0) (m : Action S A) (f : A → Action S B) (s : S)
    → ((a : A) (s' : S) → Ensures P (f a s').0)
    → Ensures P ((m >>= f) s).0
Ensures-then_action {S} {A} {B} P m f s k = after (m s)
  where
    after :
        (r : Result A × S)
        → Ensures P
            (let x : Result B × S = elim (r.0) [ ok a ↦ f a r.1 | err e ↦ (err e, r.1) ] in x).0
    after (ok a, s') = k a s'
    after (err e, s') = tt

-- A number is no larger than a whole one.
abbrev pub AtMost : ℕ → Number → Type 0
AtMost limit (fraction true n d) = Unit {0}
AtMost limit (fraction false n d) = n ≤ limit * suc d
AtMost limit (infinite negative) = negative ≡ true

AtMost-exceeds : (limit : ℕ) (x : Number) → exceeds limit x ≡ false → AtMost limit x
unfolding exceeds
AtMost-exceeds limit (fraction true n d) h = tt
AtMost-exceeds limit (fraction false n d) h = ground arith
AtMost-exceeds limit (infinite negative) h = ground arith

module _ (inner : Backend) (name : Text) (parse : Text → Option FormatMeta)
    (print : FormatMeta → Text) where
  abbrev pub IsKnown : FormatMeta → Type 0
  IsKnown meta = AtMost storage_format_version meta.version

  check_version_lem :
      (iso : Text) (found : Option FormatMeta) (w : inner.World)
      → Ensures IsKnown (check_version inner name parse print iso found w).0
  unfolding check_version write_format_meta
  check_version_lem iso none w =
      let meta : FormatMeta = record {
        version = fraction false storage_format_version 0;
        backend = name;
        created_at = iso;
      } in
      Ensures-then_action IsKnown (inner.mkdir (codes "/.tactile") recursively)
        (λ _. inner.write_text_file format_meta_path (print meta) no_version >> pure meta) w
        λ _ w'.
          Ensures-then_action IsKnown
            (inner.write_text_file format_meta_path (print meta) no_version) (λ _. pure meta) w'
            (λ _ _. omega arith)
  check_version_lem iso (some meta) w =
      elim (Bool-cases (exceeds storage_format_version meta.version)) [
        | inl e ↦ rw (e, Ensures) tt
        | inr e ↦ rw (e, Ensures) (AtMost-exceeds storage_format_version meta.version e)
      ]

  -- Where the check of the version of a store does not throw, the version that it gives is no newer
  -- than the one that is known, whatever the store holds.
  pub IsKnown-ensure_format_version :
      (iso : Text) (w : inner.World)
      → Ensures IsKnown (ensure_format_version inner name parse print iso w).0
  unfolding ensure_format_version
  IsKnown-ensure_format_version iso w =
      Ensures-then_action IsKnown (read_format_meta inner name parse print)
        (check_version inner name parse print iso) w (check_version_lem iso)
