-- ===== src/Diff/Collapse.antt =====
-- `collapseUnchanged` hides unchanged lines only, and says how many.
use tactile.Base.{
  ℕ, zero, suc, ◌+◌, ◌-◌, ◌*◌, ◌<◌, ◌≡◌, refl, sym, ap, ◌∙◌, true, Option, some, none, List, [],
  ◌∷◌, ◌++◌, map, append_assoc, append-nil, arith, length, take, drop, get_elem?, leb,
  if◌then◌else◌, Bool-cases, inl, inr, length-append, length-take, length-drop, All, All-append,
}
use tactile.Diff.{
  DiffLine, DisplayRow, line, collapsed, is_same, hidden_row, flush, collapse_loop,
  collapse_unchanged,
}

-- The lines that a row stands for.
abbrev pub row_weight : DisplayRow → ℕ
row_weight (line l) = 1
row_weight (collapsed count _ _) = count

abbrev pub weight : List DisplayRow → ℕ
weight [] = 0
weight (r ∷ rows) = row_weight r + weight rows

-- The changed lines, in order.
abbrev pub changes : List DiffLine → List DiffLine
changes [] = []
changes (l ∷ ls) = if is_same l.type then changes ls else l ∷ changes ls

abbrev pub changed_row : DisplayRow → List DiffLine → List DiffLine
changed_row (line l) rest = if is_same l.type then rest else l ∷ rest
changed_row (collapsed _ _ _) rest = rest

abbrev pub changed_rows : List DisplayRow → List DiffLine
changed_rows [] = []
changed_rows (r ∷ rows) = changed_row r (changed_rows rows)

abbrev AllSame : List DiffLine → Type 0
AllSame = All (λ l. is_same l.type ≡ true)

weight-append : (xs ys : List DisplayRow) → weight (xs ++ ys) ≡ weight xs + weight ys
weight-append [] ys = omega arith
weight-append (x ∷ xs) ys = omega (arith, weight-append xs ys)

weight-map : (ls : List DiffLine) → weight (map line ls) ≡ length ls
weight-map [] = refl
weight-map (l ∷ ls) = omega (arith, weight-map ls)

weight-hidden_row : (n : ℕ) (first : Option DiffLine) → row_weight (hidden_row n first) ≡ n
unfolding hidden_row
weight-hidden_row n (some l) = refl
weight-hidden_row n none = refl

-- A run is shown whole, or its hidden part is counted.
weight-flush : (context : ℕ) (run : List DiffLine) → weight (flush context run) ≡ length run
unfolding flush
weight-flush context run = elim (Bool-cases (leb (length run) (context * 2 + 1))) [
  | inl short ↦ rw short (weight-map run)
  | inr long ↦
      let hidden = hidden_row (length run - context * 2) (get_elem? run context) in
      let last = map line (drop (length run - context) run) in
      let more : context * 2 + 1 < length run = ground arith in
      rw long (
        omega (
          arith,
          more,
          weight-append (map line (take context run)) (hidden ∷ last),
          weight-map (take context run),
          weight-map (drop (length run - context) run),
          weight-hidden_row (length run - context * 2) (get_elem? run context),
          length-take {0} context run,
          length-drop {0} (length run - context) run,
        ))
]

AllSame-take : (n : ℕ) (ls : List DiffLine) → AllSame ls → AllSame (take n ls)
AllSame-take zero ls h = tt
AllSame-take (suc n) [] h = tt
AllSame-take (suc n) (l ∷ ls) h = (h.0, AllSame-take n ls h.1)

AllSame-drop : (n : ℕ) (ls : List DiffLine) → AllSame ls → AllSame (drop n ls)
AllSame-drop zero ls h = h
AllSame-drop (suc n) [] h = tt
AllSame-drop (suc n) (l ∷ ls) h = AllSame-drop n ls h.1

changed-map :
    (ls : List DiffLine) (rows : List DisplayRow)
    → AllSame ls
    → changed_rows (map line ls ++ rows) ≡ changed_rows rows
changed-map [] rows h = refl
changed-map (l ∷ ls) rows h = rw (h.0) (changed-map ls rows h.1)

changed-hidden :
    (n : ℕ) (first : Option DiffLine) (rows : List DisplayRow)
    → changed_rows (hidden_row n first ∷ rows) ≡ changed_rows rows
unfolding hidden_row
changed-hidden n (some l) rows = refl
changed-hidden n none rows = refl

-- The rows of a run of unchanged lines show no change.
changed-flush :
    (context : ℕ) (run : List DiffLine) (rows : List DisplayRow)
    → AllSame run
    → changed_rows (flush context run ++ rows) ≡ changed_rows rows
unfolding flush
changed-flush context run rows h = elim (Bool-cases (leb (length run) (context * 2 + 1))) [
  | inl short ↦ rw short (changed-map run rows h)
  | inr long ↦
      let hidden = hidden_row (length run - context * 2) (get_elem? run context) in
      let tail = drop (length run - context) run in
      rw long (
        ap changed_rows (append_assoc (map line (take context run)) (hidden ∷ map line tail) rows)
        ∙ changed-map (take context run) (hidden ∷ (map line tail ++ rows))
            (AllSame-take context run h)
        ∙ changed-hidden (length run - context * 2) (get_elem? run context) (map line tail ++ rows)
        ∙ changed-map tail rows (AllSame-drop (length run - context) run h))
]

weight-collapse_loop :
    (context : ℕ) (run lines : List DiffLine)
    → weight (collapse_loop context run lines) ≡ length run + length lines
unfolding collapse_loop
weight-collapse_loop context run [] = omega (arith, weight-flush context run)
weight-collapse_loop context run (l ∷ lines) = elim (Bool-cases (is_same l.type)) [
  | inl e ↦ rw e (
      omega
        (arith, weight-collapse_loop context (run ++ l ∷ []) lines, length-append {0} run (l ∷ [])))
  | inr e ↦ rw e (
      omega (
        arith,
        weight-append (flush context run) (line l ∷ collapse_loop context [] lines),
        weight-flush context run,
        weight-collapse_loop context [] lines,
      ))
]

changed-collapse_loop :
    (context : ℕ) (run lines : List DiffLine)
    → AllSame run
    → changed_rows (collapse_loop context run lines) ≡ changes lines
unfolding collapse_loop
changed-collapse_loop context run [] h =
    ap changed_rows (sym (append-nil (flush context run))) ∙ changed-flush context run [] h
changed-collapse_loop context run (l ∷ lines) h = elim (Bool-cases (is_same l.type)) [
  | inl e ↦ rw e (
      changed-collapse_loop context (run ++ l ∷ []) lines
        (All-append (λ k. is_same k.type ≡ true) run (l ∷ []) h (e, tt)))
  | inr e ↦ rw e (
      changed-flush context run (line l ∷ collapse_loop context [] lines) h
      ∙ rw e (ap (λ r. l ∷ r) (changed-collapse_loop context [] lines tt)))
]

-- Collapsing accounts for every line, and shows every changed line, in order.
pub collapse_unchanged_lem :
    (lines : List DiffLine) (context : ℕ)
    → (weight (collapse_unchanged lines context) ≡ length lines)
      × (changed_rows (collapse_unchanged lines context) ≡ changes lines)
unfolding collapse_unchanged
collapse_unchanged_lem lines context = (
  omega (arith, weight-collapse_loop context [] lines),
  changed-collapse_loop context [] lines tt,
)
