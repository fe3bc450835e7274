-- ===== src/Marigold/Lexer/Ends.antt =====
-- marigold/lexer.go: every round passes some text, so that the loop ends.
use august.Base.{
  ℕ, zero, suc, ◌+◌, ◌≤◌, ◌≡◌, refl, Bool, true, false, Option, none, some, List, [], ◌∷◌, ◌++◌,
  ◌||◌, ◌&&◌, ◌==◌, if◌then◌else◌, length, arith, Bool-cases, inl, inr,
}
use august.Base.Bytes.{Bytes}
use august.Marigold.Tokens.{Token}
use august.Marigold.Lexer.{
  Position, advance, Round, passes, adds, unterminated, crashes, single, extended, span,
  not_newline, slash, unescape, put_before, scan_string, string_token, is_digit, is_letter,
  is_word_byte, number, word_token, is_blank, is_single, round, Lexed, lexed, no_end_of_string,
  no_source, crashed, next_round, lex_loop, lex,
}

-- What is left after a round is no longer than `n`.
abbrev Leaves : ℕ → Round → Type 0
Leaves n (passes cs p) = length cs ≤ n
Leaves n (adds t cs p) = length cs ≤ n
Leaves n unterminated = Unit {0}
Leaves n crashes = Unit {0}

-- A passage over a text adds up to it.
span-length :
    (test : ℕ → Bool) (cs : Bytes) (p : Position)
    → let (word, rest, q) = span test cs p in length word + length rest ≡ length cs
unfolding span
span-length test [] p = refl
span-length test (c ∷ cs) p = elim (Bool-cases (test c)) [
  | inl passed ↦ rw passed (omega (arith, span-length test cs (advance c p)))
  | inr stopped ↦ rw stopped (omega arith)
]

-- The first byte is passed.
span-first :
    (test : ℕ → Bool) (c : ℕ) (cs : Bytes) (p : Position)
    → test c ≡ true
    → let (word, rest, q) = span test (c ∷ cs) p in length rest ≤ length cs
unfolding span
span-first test c cs p h = rw h (omega (arith, span-length test cs (advance c p)))

single-Leaves : (c : ℕ) (cs : Bytes) (p : Position) → Leaves (length cs) (single c cs p)
single-Leaves c cs p = omega arith

extended-Leaves :
    (c d : ℕ) (alone : Round) (cs : Bytes) (p : Position)
    → Leaves (length cs) alone
    → Leaves (length cs) (extended c d alone cs p)
extended-Leaves c d alone [] p h = h
extended-Leaves c d alone (e ∷ cs) p h = elim (Bool-cases (e == d)) [
  | inl two ↦ rw two (omega arith)
  | inr one ↦ rw one h
]

slash-Leaves : (cs : Bytes) (p : Position) → Leaves (length cs) (slash cs p)
unfolding slash
slash-Leaves [] p = omega arith
slash-Leaves (d ∷ ds) p = elim (Bool-cases (d == b'/')) [
  | inl comment ↦ rw comment (span-first not_newline b'/' (d ∷ ds) p refl)
  | inr division ↦ rw division (omega arith)
]

-- What is behind the closing quote.
abbrev Behind : ℕ → Option (Bytes × Bytes × Position) → Type 0
Behind n none = Unit {0}
Behind n (some (content, rest, q)) = length rest ≤ n

put_before-Behind :
    (word : Bytes) (o : Option (Bytes × Bytes × Position)) (m n : ℕ)
    → m ≤ n
    → Behind m o
    → Behind n (put_before word o)
put_before-Behind word none m n h b = tt
put_before-Behind word (some (content, rest, q)) m n h b = omega (arith, h, b)

scan_string-Behind : (cs : Bytes) (p : Position) → Behind (length cs) (scan_string cs p)
unfolding scan_string
scan_string-Behind [] p = tt
scan_string-Behind (c ∷ []) p = elim (Bool-cases (c == b'"')) [
  | inl quote ↦ rw quote (omega arith)
  | inr inner ↦ rw inner tt
]
scan_string-Behind (c ∷ d ∷ ds) p = elim (Bool-cases (c == b'"')) [
  | inl quote ↦ rw quote (omega arith)
  | inr inner ↦ elim (Bool-cases (c == b'\\')) [
    | inl escape ↦
        rw (inner, escape)
          (put_before-Behind (unescape d) (scan_string ds (advance d (advance c p))) (length ds) _
            (omega arith) (scan_string-Behind ds (advance d (advance c p))))
    | inr plain ↦
        rw (inner, plain)
          (put_before-Behind (c ∷ []) (scan_string (d ∷ ds) (advance c p)) (length (d ∷ ds)) _
            (omega arith) (scan_string-Behind (d ∷ ds) (advance c p)))
  ]
]

string_token-Leaves :
    (p : Position) (o : Option (Bytes × Bytes × Position)) (n : ℕ)
    → Behind n o
    → Leaves n (string_token p o)
string_token-Leaves p none n h = tt
string_token-Leaves p (some (content, rest, q)) n h = h

number-Leaves :
    (p : Position) (r : Bytes × Bytes × Position) (n : ℕ) → length r.1 ≤ n → Leaves n (number p r)
unfolding number
number-Leaves p (whole, [], q) n h = h
number-Leaves p (whole, c ∷ [], q) n h = h
number-Leaves p (whole, c ∷ d ∷ ds, q) n h = elim (Bool-cases ((c == b'.') && is_digit d)) [
  | inl float ↦ rw float (omega (arith, h, span-length is_digit (d ∷ ds) (advance c q)))
  | inr int ↦ rw int h
]

word_token-Leaves :
    (p : Position) (r : Bytes × Bytes × Position) (n : ℕ)
    → length r.1 ≤ n
    → Leaves n (word_token p r)
word_token-Leaves p (word, rest, q) n h = h

if-Leaves :
    (n : ℕ) (t : Bool) (a b : Round)
    → (t ≡ true → Leaves n a)
    → Leaves n b
    → Leaves n (if t then a else b)
if-Leaves n true a b h k = h refl
if-Leaves n false a b h k = k

letter_in_word : (c : ℕ) → is_letter c ≡ true → is_word_byte c ≡ true
letter_in_word c h = rw h refl

-- Every round passes the byte at the cursor.
round-Leaves : (c : ℕ) (cs : Bytes) (p : Position) → Leaves (length cs) (round c cs p)
unfolding round
round-Leaves c cs p =
    let n = length cs in
    let one = single-Leaves c cs p in
    if-Leaves n (is_blank c) _ _ (λ e. omega arith)
      (if-Leaves n (is_single c) _ _ (λ e. one)
        (if-Leaves n ((c == b'=') || (c == b'!') || (c == b'<') || (c == b'>')) _ _
          (λ e. extended-Leaves c b'=' (single c cs p) cs p one)
          (if-Leaves n (c == b'&') _ _ (λ e. extended-Leaves c b'&' crashes cs p tt)
            (if-Leaves n (c == b'|') _ _ (λ e. extended-Leaves c b'|' (single c cs p) cs p one)
              (if-Leaves n (c == b'/') _ _ (λ e. slash-Leaves cs p)
                (if-Leaves n (c == b'"') _ _
                  (λ e.
                    string_token-Leaves p (scan_string cs (advance c p)) n
                      (scan_string-Behind cs (advance c p)))
                  (if-Leaves n (is_digit c) _ _
                    (λ e.
                      number-Leaves p (span is_digit (c ∷ cs) p) n (span-first is_digit c cs p e))
                    (if-Leaves n (is_letter c) _ _
                      (λ e.
                        word_token-Leaves p (span is_word_byte (c ∷ cs) p) n
                          (span-first is_word_byte c cs p (letter_in_word c e)))
                      tt))))))))

next_round-ends :
    (fuel : ℕ) (before : List Token) (r : Round)
    → ((cs : Bytes) (p : Position) (before' : List Token)
        → length cs ≤ fuel
        → (x : Lexed) × (lex_loop fuel cs p before' ≡ some x))
    → Leaves fuel r
    → (x : Lexed) × (next_round (lex_loop fuel) before r ≡ some x)
next_round-ends fuel before (passes cs p) next h = next cs p before h
next_round-ends fuel before (adds t cs p) next h = next cs p (before ++ t ∷ []) h
next_round-ends fuel before unterminated next h = (no_end_of_string before, refl)
next_round-ends fuel before crashes next h = (crashed, refl)

Leaves-le : (m n : ℕ) (r : Round) → m ≤ n → Leaves m r → Leaves n r
Leaves-le m n (passes cs p) h k = omega (arith, h, k)
Leaves-le m n (adds t cs p) h k = omega (arith, h, k)
Leaves-le m n unterminated h k = tt
Leaves-le m n crashes h k = tt

lex_loop_ends :
    (fuel : ℕ) (cs : Bytes) (p : Position) (before : List Token)
    → length cs ≤ fuel
    → (x : Lexed) × (lex_loop fuel cs p before ≡ some x)
unfolding lex_loop
lex_loop_ends fuel [] p before h = (lexed before, refl)
lex_loop_ends zero (c ∷ cs) p before h = absurd (omega arith)
lex_loop_ends (suc fuel) (c ∷ cs) p before h =
    next_round-ends fuel before (round c cs p) (λ ds q b k. lex_loop_ends fuel ds q b k)
      (Leaves-le (length cs) fuel (round c cs p) (omega (arith, h)) (round-Leaves c cs p))

-- `Lex` ends on every text, within one round for each of its bytes.
pub lex_ends : (text : Bytes) → (x : Lexed) × (lex text ≡ some x)
unfolding lex
lex_ends [] = (no_source, refl)
lex_ends (c ∷ cs) =
    lex_loop_ends (length (c ∷ cs)) (c ∷ cs) (record { row = 0; col = 0 }) [] (omega arith)
