-- ===== src/Headers/RoundTrip.antt =====
-- Which header names survive their spelling as property names.
use faststream_mq.Base.{
  ℕ, zero, ◌≡◌, refl, ◌≢◌, ◌↔◌, inl, inr, Bool, true, false, not, ◌||◌, [], ◌∷◌, ◌++◌, arith, Text,
  codes, ◌==◌, if◌then◌else◌, Bool-cases, starts_with, replace, replace_from, text_eq, text_eq_iff,
  ap, ==_iff, ◌∙◌,
}
use faststream_mq.Headers.{
  dash_word, strip_property_prefix, property_name_from_header, header_name_from_property,
}

-- the text reads `_dash_` or `_dash-` at its first character
abbrev pub is_ambiguous_at : Text → Bool
is_ambiguous_at s = starts_with dash_word s || starts_with (codes "_dash-") s

-- ... or at a later one
unfoldable pub is_ambiguous : Text → Bool
is_ambiguous [] = false
is_ambiguous (c ∷ s) = is_ambiguous_at (c ∷ s) || is_ambiguous s

-- the dashes of a name spelled out, one character after another
escape : Text → Text
escape [] = []
escape (c ∷ s) = if c == 45 then dash_word ++ escape s else c ∷ escape s

abbrev unescape : ℕ → Text → Text
unescape = replace_from 5 dash_word (codes "-")

replace-escape : (s : Text) → replace (codes "-") dash_word s ≡ escape s
unfolding replace replace_from starts_with escape
replace-escape [] = refl
replace-escape (c ∷ s) = ground (arith, replace-escape s)

abbrev IsPlain : Text → Type 0
IsPlain [] = Unit
IsPlain (p ∷ ps) = (p ≢ 45) × (p ≢ 95) × IsPlain ps

-- A plain word and an underscore stand in the escaped text where the word and an underscore or a
-- dash stand in the name.
starts_with-escape :
    (ps s : Text)
    → IsPlain ps
    → starts_with (ps ++ codes "_") (escape s)
      ≡ (starts_with (ps ++ codes "_") s || starts_with (ps ++ codes "-") s)
unfolding starts_with escape
starts_with-escape [] [] h = refl
starts_with-escape [] (c ∷ s) h = ground arith
starts_with-escape (p ∷ ps) [] h = refl
starts_with-escape (p ∷ ps) (c ∷ s) h = ground (arith, starts_with-escape ps s)

ambiguous_head :
    (c : ℕ) (s : Text) → c ≢ 45 → starts_with dash_word (c ∷ escape s) ≡ is_ambiguous_at (c ∷ s)
unfolding starts_with
ambiguous_head c s h = ground (arith, starts_with-escape (codes "dash") s (omega arith))

ambiguous_dash : (s : Text) → is_ambiguous_at (45 ∷ s) ≡ false
unfolding starts_with
ambiguous_dash s = refl

ambiguous_first : (c : ℕ) (s : Text) → is_ambiguous_at (c ∷ s) ≡ true → c ≡ 95
unfolding starts_with
ambiguous_first c s h = ground arith

unescape-dash : (s : Text) → unescape zero (dash_word ++ s) ≡ 45 ∷ unescape zero s
unfolding replace_from starts_with
unescape-dash s = refl

unescape_hit :
    (c : ℕ) (s : Text)
    → starts_with dash_word (c ∷ s) ≡ true
    → unescape zero (c ∷ s) ≡ 45 ∷ unescape 5 s
unfolding replace_from
unescape_hit c s h = rw h

unescape_miss :
    (c : ℕ) (s : Text)
    → starts_with dash_word (c ∷ s) ≡ false
    → unescape zero (c ∷ s) ≡ c ∷ unescape zero s
unfolding replace_from
unescape_miss c s h = rw h

-- The escaped name is read back as the name exactly if the name is not ambiguous.
unescape-escape : (s : Text) → text_eq (unescape zero (escape s)) s ≡ not (is_ambiguous s)
unfolding text_eq escape is_ambiguous replace_from
unescape-escape [] = refl
unescape-escape (c ∷ s) = elim (Bool-cases (c == 45)) [
  | inl dash ↦
      rw ((==_iff _ _).0 dash) (rw (unescape-dash (escape s), ambiguous_dash s) (unescape-escape s))
  | inr other ↦ elim (Bool-cases (is_ambiguous_at (c ∷ s))) [
    | inl bad ↦
        let seen = ambiguous_head c s (λ e. ground arith) ∙ bad in
        rw (other, bad)
          (rw (unescape_hit c (escape s) seen) (ground (arith, ambiguous_first c s bad)))
    | inr fine ↦
        let unseen = ambiguous_head c s (λ e. ground arith) ∙ fine in
        rw (other, fine)
          (rw (unescape_miss c (escape s) unseen) (ground (arith, unescape-escape s)))
  ]
]

strip-prefix : (s : Text) → strip_property_prefix (codes "usr." ++ s) ≡ s
unfolding strip_property_prefix
strip-prefix s = refl

travelled :
    (name : Text)
    → header_name_from_property (strip_property_prefix (property_name_from_header name))
      ≡ unescape zero (escape name)
unfolding property_name_from_header header_name_from_property
travelled name =
    ap header_name_from_property
      (strip-prefix (replace (codes "-") dash_word name) ∙ replace-escape name)

-- A header name comes back from the property that it travelled as exactly if it nowhere reads
-- `_dash_` or `_dash-`.
pub header_name-roundtrip :
    (name : Text)
    → (header_name_from_property (strip_property_prefix (property_name_from_header name)) ≡ name)
      ↔ (is_ambiguous name ≡ false)
header_name-roundtrip name = rw travelled (
  (λ e. ground (arith, unescape-escape name, (text_eq_iff (unescape zero (escape name)) name).1 e)),
  λ e. (text_eq_iff (unescape zero (escape name)) name).0 (unescape-escape name ∙ ap not e),
)
