-- ===== src/Text.antt =====
-- Text that the program walks, as the list of its code points: `_normalize_text` of
-- src/chc_rental/matching.py and src/chc_rental/dedup.py, with Python's `strip`, `split` and `lower`.
-- `lower` is Python's on ASCII letters and leaves every other code point alone.
pub mod Equal
pub mod Normal
use chc_rental.Base.{
  ℕ, ◌+◌, ◌≡◌, Bool, true, false, ◌&&◌, ◌||◌, Option, none, some, List, [], ◌∷◌, ◌++◌, map, leb,
  ◌==◌, if◌then◌else◌,
}

abbrev pub Text : Type 0
Text = List ℕ

-- The code points that `str.split` and `str.strip` take for white space.
unfoldable pub is_space : ℕ → Bool
is_space c =
    leb 9 c && leb c 13
    || leb 28 c && leb c 32
    || c == 133
    || c == 160
    || c == 5760
    || leb 8192 c && leb c 8202
    || c == 8232
    || c == 8233
    || c == 8239
    || c == 8287
    || c == 12288

unfoldable pub lower_char : ℕ → ℕ
lower_char c = if leb b'A' c && leb c b'Z' then c + 32 else c

-- `str.lower`
unfoldable pub lower : Text → Text
lower = map lower_char

-- The word that ends at the right end, if there is one, before the words after it.
abbrev pub push : Text → List Text → List Text
push [] ws = ws
push (c ∷ w) ws = (c ∷ w) ∷ ws

-- One character before a text that is split: what is left of its first word, and the words after.
abbrev pub split_step : ℕ → Text × List Text → Text × List Text
split_step c (w, ws) = if is_space c then ([], push w ws) else (c ∷ w, ws)

unfoldable pub split_from : Text → Text × List Text
split_from [] = ([], [])
split_from (c ∷ s) = split_step c (split_from s)

-- `str.split()`
unfoldable pub split : Text → List Text
unfolding split_from
split s = let (w, ws) = split_from s in push w ws

-- `" ".join(words)`
unfoldable pub join : List Text → Text
join [] = []
join (w ∷ []) = w
join (w ∷ v ∷ ws) = w ++ (b' ' ∷ join (v ∷ ws))

abbrev or_empty : Option Text → Text
or_empty none = []
or_empty (some s) = s

-- `_normalize_text`
unfoldable pub normalize_text : Option Text → Text
normalize_text value = lower (join (split (or_empty value)))

unfoldable pub lstrip : Text → Text
lstrip [] = []
lstrip (c ∷ s) = let rest = lstrip s in if is_space c then rest else c ∷ s

-- What `rstrip` keeps of a text when the text behind it is already stripped.
abbrev pub rstrip_step : ℕ → Text → Text
rstrip_step c [] = if is_space c then [] else c ∷ []
rstrip_step c (d ∷ s) = c ∷ d ∷ s

unfoldable pub rstrip : Text → Text
rstrip [] = []
rstrip (c ∷ s) = rstrip_step c (rstrip s)

-- `str.strip()`
unfoldable pub strip : Text → Text
strip s = rstrip (lstrip s)
