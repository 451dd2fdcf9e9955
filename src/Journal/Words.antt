-- ===== src/Journal/Words.antt =====
-- Arrays of words in a journal record read back.
use kvtier.Prelude.{
  ℕ, ◌*◌, ◌^◌, ◌<◌, ◌≡◌, refl, List, [], ◌∷◌, ◌++◌, arith, length, length-append, take_append,
  drop_append,
}
use mathlib.Core.List.{append_assoc}
use kvtier.Common.Bytes.{le_bytes, le_value-le_bytes, length-le_bytes}
use kvtier.Journal.{words_bytes, words_of}

-- every word fits `w` bytes
abbrev pub AllFit : ℕ → List ℕ → Type 0
AllFit w [] = Unit {0}
AllFit w (x ∷ xs) = (x < 256 ^ w) × AllFit w xs

pub length-words_bytes : (w : ℕ) (xs : List ℕ) → length (words_bytes w xs) ≡ length xs * w
unfolding words_bytes
length-words_bytes w [] = omega arith
length-words_bytes w (x ∷ xs) = omega (
  arith,
  length-append (le_bytes w x) (words_bytes w xs),
  length-le_bytes w x,
  length-words_bytes w xs,
)

pub words_of-words_bytes :
    (w : ℕ) (xs post : List ℕ)
    → AllFit w xs
    → words_of (length xs) w (words_bytes w xs ++ post) ≡ xs
unfolding words_bytes words_of
words_of-words_bytes w [] post f = refl
words_of-words_bytes w (x ∷ xs) post (h, f) =
    let tail = words_bytes w xs ++ post in
    rw
      (
        append_assoc (le_bytes w x) (words_bytes w xs) post,
        take_append w (le_bytes w x) tail (length-le_bytes w x),
        drop_append w (le_bytes w x) tail (length-le_bytes w x),
        le_value-le_bytes w x h,
        words_of-words_bytes w xs post f,
      )
      refl
