-- ===== src/Fuzzy/Marks.antt =====
-- `applyHighlights` puts the ranges in marks and shows every character once.
use tactile.Base.{
  ℕ, suc, ◌+◌, ◌-◌, ◌≤◌, ◌≡◌, refl, sym, ap, ◌∙◌, List, [], ◌∷◌, ◌++◌, map, append_assoc,
  append-nil, arith, Text, drop, take-append-drop, drop-drop,
}
use tactile.Fuzzy.{mark, slice, highlight_loop, apply_highlights, escape_html}
use tactile.Fuzzy.Ranges.{Separated}

-- A stretch of the text, in a mark or not.
pub data Piece : Type 0 where
  plain : Text → Piece
  marked : Text → Piece

abbrev pub render : Text → List Piece → Text
render mark_class [] = []
render mark_class (plain t ∷ ps) = escape_html t ++ render mark_class ps
render mark_class (marked t ∷ ps) = mark mark_class (escape_html t) ++ render mark_class ps

abbrev pub contents : List Piece → Text
contents [] = []
contents (plain t ∷ ps) = t ++ contents ps
contents (marked t ∷ ps) = t ++ contents ps

abbrev pub marked_texts : List Piece → List Text
marked_texts [] = []
marked_texts (plain t ∷ ps) = marked_texts ps
marked_texts (marked t ∷ ps) = t ∷ marked_texts ps

pieces : Text → List (ℕ × ℕ) → ℕ → List Piece
pieces text [] cursor = plain (drop cursor text) ∷ []
pieces text ((start, end) ∷ ranges) cursor =
    plain (slice text cursor start) ∷ marked (slice text start end) ∷ pieces text ranges end

highlight_loop_lem :
    (text mark_class : Text) (ranges : List (ℕ × ℕ)) (cursor : ℕ) (out : Text)
    → highlight_loop text mark_class ranges cursor out
      ≡ out ++ render mark_class (pieces text ranges cursor)
unfolding highlight_loop pieces
highlight_loop_lem text mark_class [] cursor out = ap (λ t. out ++ t) (sym (append-nil _))
highlight_loop_lem text mark_class ((start, end) ∷ ranges) cursor out =
    let a = escape_html (slice text cursor start) in
    let b = mark mark_class (escape_html (slice text start end)) in
    let c = render mark_class (pieces text ranges end) in
    highlight_loop_lem text mark_class ranges end (out ++ (a ++ b))
    ∙ append_assoc out (a ++ b) c
    ∙ ap (λ t. out ++ t) (append_assoc a b c)

slice-append-drop : (text : Text) (i j : ℕ) → i ≤ j → slice text i j ++ drop j text ≡ drop i text
slice-append-drop text i j h =
    let e : i + (j - i) ≡ j = omega arith in
    ap (λ t. slice text i j ++ t) (sym (drop-drop (j - i) i text ∙ ap (λ k. drop k text) e))
    ∙ take-append-drop (j - i) (drop i text)

contents-pieces :
    (text : Text) (ranges : List (ℕ × ℕ)) (cursor : ℕ)
    → Separated cursor ranges
    → contents (pieces text ranges cursor) ≡ drop cursor text
unfolding pieces
contents-pieces text [] cursor h = append-nil _
contents-pieces text ((start, end) ∷ ranges) cursor h =
    ap (λ t. slice text cursor start ++ (slice text start end ++ t))
      (contents-pieces text ranges end (weaker ranges end h.2))
    ∙ ap (λ t. slice text cursor start ++ t) (slice-append-drop text start end (omega (arith, h.1)))
    ∙ slice-append-drop text cursor start h.0
  where
    weaker : (ranges : List (ℕ × ℕ)) (b : ℕ) → Separated (suc b) ranges → Separated b ranges
    weaker [] b h = tt
    weaker ((s, e) ∷ r) b h = (omega (arith, h.0), h.1, h.2)

marked-pieces :
    (text : Text) (ranges : List (ℕ × ℕ)) (cursor : ℕ)
    → marked_texts (pieces text ranges cursor) ≡ map (λ r. slice text r.0 r.1) ranges
unfolding pieces
marked-pieces text [] cursor = refl
marked-pieces text ((start, end) ∷ ranges) cursor =
    ap (λ r. slice text start end ∷ r) (marked-pieces text ranges end)

-- For separated ranges the output shows pieces that spell the text, escaped, with exactly the
-- ranges in marks.
pub apply_highlights_lem :
    (text mark_class : Text) (ranges : List (ℕ × ℕ))
    → Separated 0 ranges
    → (ps : List Piece) × (apply_highlights text ranges mark_class ≡ render mark_class ps)
      × (contents ps ≡ text)
      × (marked_texts ps ≡ map (λ r. slice text r.0 r.1) ranges)
unfolding apply_highlights
apply_highlights_lem text mark_class [] h =
    (plain text ∷ [], sym (append-nil _), append-nil text, refl)
apply_highlights_lem text mark_class (r ∷ ranges) h = (
  pieces text (r ∷ ranges) 0,
  highlight_loop_lem text mark_class (r ∷ ranges) 0 [],
  contents-pieces text (r ∷ ranges) 0 h,
  marked-pieces text (r ∷ ranges) 0,
)
