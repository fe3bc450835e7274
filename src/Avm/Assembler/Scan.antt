-- ===== src/Avm/Assembler/Scan.antt =====
-- avm/parser.go: the words of a text.
use august.Base.{
  ℕ, ◌≡◌, refl, ap, sym, ◌∙◌, Bool, true, false, List, [], ◌∷◌, ◌++◌, ◌||◌, ◌==◌, not, ◌&&◌, arith,
}
use mathlib.Core.List.{append-nil, append_assoc}
use august.Base.Bytes.{Bytes}
use august.Avm.Assembler.{is_space, comma, flush, tokens_from, tokens, join}

-- A byte that stands inside of a word.
unfoldable pub in_word : ℕ → Bool
in_word c = not (is_space c || (c == comma))

unfoldable pub all_in_word : Bytes → Bool
all_in_word [] = true
all_in_word (c ∷ cs) = in_word c && all_in_word cs

-- A text of such bytes, not empty.
abbrev pub IsWord : Bytes → Type 0
IsWord [] = ⊥
IsWord (c ∷ cs) = all_in_word (c ∷ cs) ≡ true

abbrev pub AllWords : List Bytes → Type 0
AllWords [] = Unit {0}
AllWords (w ∷ ws) = IsWord w × AllWords ws

flush_some :
    (w : Bytes) (c : ℕ) (rest : List Bytes) → flush (w ++ c ∷ []) rest ≡ (w ++ c ∷ []) ∷ rest
flush_some [] c rest = refl
flush_some (d ∷ w) c rest = refl

-- The bytes of a word are read into it.
read_word :
    (cs before tail : Bytes)
    → all_in_word cs ≡ true
    → tokens_from before (cs ++ tail) ≡ tokens_from (before ++ cs) tail
unfolding all_in_word in_word tokens_from
read_word [] before tail h = rw append-nil refl
read_word (c ∷ cs) before tail h =
    let plain : is_space c ≡ false = ground arith in
    let apart : (c == comma) ≡ false = ground arith in
    rw (plain, apart)
      (read_word cs (before ++ c ∷ []) tail (ground arith)
        ∙ ap (λ b. tokens_from b tail) (append_assoc before (c ∷ []) cs))

IsWord-flush : (w : Bytes) (ts : List Bytes) → IsWord w → flush w ts ≡ w ∷ ts
IsWord-flush [] ts h = absurd h
IsWord-flush (c ∷ cs) ts h = refl

IsWord-all : (w : Bytes) → IsWord w → all_in_word w ≡ true
IsWord-all [] h = absurd h
IsWord-all (c ∷ cs) h = h

-- Words with spaces between them are the tokens of their text.
pub tokens-join : (ws : List Bytes) → AllWords ws → tokens (join ws) ≡ ws
unfolding tokens join tokens_from
tokens-join [] h = refl
tokens-join (w ∷ []) (h, hs) =
    ap (tokens_from []) (sym (append-nil w))
    ∙ (read_word w [] [] (IsWord-all w h) ∙ IsWord-flush w [] h)
tokens-join (w ∷ v ∷ ws) (h, hs) =
    read_word w [] (b' ' ∷ join (v ∷ ws)) (IsWord-all w h)
    ∙ (IsWord-flush w (tokens (join (v ∷ ws))) h ∙ ap (λ l. w ∷ l) (tokens-join (v ∷ ws) hs))
