-- ===== src/Fuzzy/Escape.antt =====
-- `escapeHtml` leaves no markup character, and loses nothing.
use tactile.Base.{
  ℕ, ◌≡◌, ◌≢◌, refl, sym, ◌∙◌, [], ◌∷◌, ◌++◌, arith, Text, codes, ◌==◌, if◌then◌else◌, All,
  All-append,
}
use tactile.Fuzzy.{replace_char, escape_html}

-- What one character becomes.
unfoldable pub entity : ℕ → Text
entity c =
    if c == b'&'
    then codes "&amp;"
    else if c == b'<'
    then codes "&lt;"
    else if c == b'>'
    then codes "&gt;"
    else if c == b'"'
    then codes "&quot;"
    else c ∷ []

-- The four passes are one pass.
pub escape_html-cons : (c : ℕ) (s : Text) → escape_html (c ∷ s) ≡ entity c ++ escape_html s
unfolding escape_html entity replace_char
escape_html-cons c s = ground arith

-- A character that is safe between tags and in a quoted attribute.
abbrev pub IsSafe : ℕ → Type 0
IsSafe c = (c ≢ b'<') × (c ≢ b'>') × (c ≢ b'"')

IsSafe-entity : (c : ℕ) → All IsSafe (entity c)
unfolding entity
IsSafe-entity c = ground arith

-- The escaped text holds no angle bracket and no quote.
pub IsSafe-escape_html : (s : Text) → All IsSafe (escape_html s)
IsSafe-escape_html [] = unfold escape_html in tt
IsSafe-escape_html (c ∷ s) =
    rw (escape_html-cons c s)
      (All-append IsSafe (entity c) (escape_html s) (IsSafe-entity c) (IsSafe-escape_html s))

entity_prefix : (c d : ℕ) (s t : Text) → entity c ++ s ≡ entity d ++ t → (c ≡ d) × (s ≡ t)
unfolding entity
entity_prefix c d s t h = ground arith

entity-ne-nil : (c : ℕ) (s : Text) → entity c ++ s ≢ []
unfolding entity
entity-ne-nil c s = ground arith

-- Different texts are escaped differently.
pub escape_html-injective : (s t : Text) → escape_html s ≡ escape_html t → s ≡ t
escape_html-injective [] [] h = refl
escape_html-injective [] (d ∷ t) h =
    absurd (entity-ne-nil d (escape_html t) (sym (escape_html-cons d t) ∙ sym h ∙ nil))
  where
    nil : escape_html [] ≡ []
    nil = unfold escape_html in refl
escape_html-injective (c ∷ s) [] h =
    absurd (entity-ne-nil c (escape_html s) (sym (escape_html-cons c s) ∙ h ∙ nil))
  where
    nil : escape_html [] ≡ []
    nil = unfold escape_html in refl
escape_html-injective (c ∷ s) (d ∷ t) h =
    let parts =
      entity_prefix c d (escape_html s) (escape_html t)
        (sym (escape_html-cons c s) ∙ h ∙ escape_html-cons d t) in
    cc (parts.0, escape_html-injective s t parts.1)
