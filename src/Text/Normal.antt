-- ===== src/Text/Normal.antt =====
-- The normal form of a text.
use chc_rental.Base.{
  ℕ, ◌≡◌, refl, ap, ◌∙◌, false, some, List, [], ◌∷◌, ◌++◌, map, arith, inl, inr, Bool-cases,
}
use chc_rental.Base.Table.{All}
use chc_rental.Text.{
  Text, is_space, lower_char, lower, push, split_from, split, join, normalize_text,
}

-- No white space in it.
abbrev IsFree : Text → Type 0
IsFree s = All (λ c. is_space c ≡ false) s

-- Free, and not empty.
abbrev IsWord : Text → Type 0
IsWord [] = ⊥
IsWord (c ∷ s) = IsFree (c ∷ s)

push-words : (w : Text) (ws : List Text) → IsFree w → All IsWord ws → All IsWord (push w ws)
push-words [] ws h k = k
push-words (c ∷ w) ws h k = (h, k)

split_from-words : (s : Text) → IsFree (split_from s).0 × All IsWord (split_from s).1
unfolding split_from
split_from-words [] = (tt, tt)
split_from-words (c ∷ s) =
    let rest = split_from-words s in
    elim (Bool-cases (is_space c)) [
      | inl space ↦ rw space (tt, push-words (split_from s).0 (split_from s).1 rest.0 rest.1)
      | inr letter ↦ rw letter ((letter, rest.0), rest.1)
    ]

split-words : (s : Text) → All IsWord (split s)
unfolding split
split-words s = let h = split_from-words s in push-words (split_from s).0 (split_from s).1 h.0 h.1

split_from-word : (w : Text) → IsFree w → split_from w ≡ (w, [])
unfolding split_from
split_from-word [] h = refl
split_from-word (c ∷ w) h = rw (split_from-word w h.1, h.0) refl

split_from-space : (w s : Text) → IsFree w → split_from (w ++ (b' ' ∷ s)) ≡ (w, split s)
unfolding split_from split
split_from-space [] s h = unfold is_space in refl
split_from-space (c ∷ w) s h = rw (split_from-space w s h.1, h.0) refl

push-word : (w : Text) (ws : List Text) → IsWord w → push w ws ≡ w ∷ ws
push-word [] ws h = absurd h
push-word (c ∷ w) ws h = refl

free : (w : Text) → IsWord w → IsFree w
free [] h = tt
free (c ∷ w) h = h

split-pair :
    (w v : Text) (ws : List Text)
    → IsWord w
    → split (join (v ∷ ws)) ≡ v ∷ ws
    → split (w ++ (b' ' ∷ join (v ∷ ws))) ≡ w ∷ v ∷ ws
unfolding split
split-pair w v ws h rest =
    rw (split_from-space w (join (v ∷ ws)) (free w h))
      (push-word w (split (join (v ∷ ws))) h ∙ ap (λ x. w ∷ x) rest)

split-join : (ws : List Text) → All IsWord ws → split (join ws) ≡ ws
unfolding join
split-join [] h = unfold split split_from in refl
split-join (w ∷ []) h = unfold split in rw (split_from-word w (free w h.0)) (push-word w [] h.0)
split-join (w ∷ v ∷ ws) h = let rest = split-join (v ∷ ws) h.1 in split-pair w v ws h.0 rest

lower_char-space : (c : ℕ) → is_space (lower_char c) ≡ is_space c
unfolding is_space lower_char
lower_char-space c = ground arith

lower_char_lower : (c : ℕ) → lower_char (lower_char c) ≡ lower_char c
unfolding lower_char
lower_char_lower c = ground arith

lower-IsFree : (w : Text) → IsFree w → IsFree (lower w)
unfolding lower
lower-IsFree [] h = tt
lower-IsFree (c ∷ w) h = (lower_char-space c ∙ h.0, lower-IsFree w h.1)

lower-IsWord : (w : Text) → IsWord w → IsWord (lower w)
unfolding lower
lower-IsWord [] h = h
lower-IsWord (c ∷ w) h = (lower_char-space c ∙ h.0, unfold lower in lower-IsFree w h.1)

lower-words : (ws : List Text) → All IsWord ws → All IsWord (map lower ws)
lower-words [] h = tt
lower-words (w ∷ ws) h = (lower-IsWord w h.0, lower-words ws h.1)

lower-append : (s t : Text) → lower (s ++ t) ≡ lower s ++ lower t
unfolding lower
lower-append [] t = refl
lower-append (c ∷ s) t = ap (λ x. lower_char c ∷ x) (lower-append s t)

lower-gap : (s : Text) → lower (b' ' ∷ s) ≡ b' ' ∷ lower s
unfolding lower lower_char
lower-gap s = refl

lower-join : (ws : List Text) → lower (join ws) ≡ join (map lower ws)
unfolding join
lower-join [] = unfold lower in refl
lower-join (w ∷ []) = refl
lower-join (w ∷ v ∷ ws) =
    lower-append w (b' ' ∷ join (v ∷ ws)) ∙ rw (lower-gap (join (v ∷ ws)), lower-join (v ∷ ws)) refl

lower-lower : (s : Text) → lower (lower s) ≡ lower s
unfolding lower
lower-lower [] = refl
lower-lower (c ∷ s) = rw (lower_char_lower c, lower-lower s) refl

map-lower-lower : (ws : List Text) → map lower (map lower ws) ≡ map lower ws
map-lower-lower [] = refl
map-lower-lower (w ∷ ws) = rw (lower-lower w, map-lower-lower ws) refl

-- The normal form of a text is its words in lower case between single spaces.
normal_words : (s : Text) → normalize_text (some s) ≡ join (map lower (split s))
unfolding normalize_text
normal_words s = lower-join (split s)

-- `_normalize_text`, with a `lower` that lowers ASCII letters only, changes nothing when it is applied
-- to what it gave.
pub normalize_text-twice :
    (s : Text) → normalize_text (some (normalize_text (some s))) ≡ normalize_text (some s)
normalize_text-twice s =
    let ws = map lower (split s) in
    let words = lower-words (split s) (split-words s) in
    rw (normal_words s)
      (normal_words (join ws) ∙ rw (split-join ws words, map-lower-lower (split s)) refl)
