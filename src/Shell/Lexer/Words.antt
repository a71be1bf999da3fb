-- ===== src/Shell/Lexer/Words.antt =====
-- What the lexer makes of words, of spaces and of a pipe; and that it moves on.
use umbongo.Base.{ℕ, ◌+◌, ◌≤◌, ◌≡◌, refl, List, [], ◌∷◌, ◌++◌, true, false, ◌==◌, arith, length}
use umbongo.Shell.Lexer.{
  TokenKind, eof, pipe, of_kind, of_text, is_space, is_identifier_character, skip_spaces,
  take_identifier, token_at, next_token,
}

-- Characters that may stand in a word, and those that may begin it.
abbrev pub All {ℓ κ} : {A : Type ℓ} → (A → Type κ) → List A → Type κ
All P [] = Unit
All P (x ∷ xs) = P x × All P xs

abbrev pub IsInner : ℕ → Type 0
IsInner ch = is_identifier_character ch ≡ true

-- A word: not empty, of identifier characters, and not begun by a space or a pipe.
abbrev pub IsWord : List ℕ → Type 0
IsWord [] = ⊥
IsWord (ch ∷ rest) = (is_space ch ≡ false) × ((ch == 124) ≡ false) × IsInner ch × All IsInner rest

-- What may follow a word.
abbrev pub Stops : List ℕ → Type 0
Stops [] = Unit
Stops (ch ∷ rest) = is_identifier_character ch ≡ false

take_identifier-append :
    (word rest : List ℕ)
    → All IsInner word
    → Stops rest
    → take_identifier (word ++ rest) ≡ (word, rest)
unfolding take_identifier
take_identifier-append [] [] w s = refl
take_identifier-append [] (ch ∷ rest) w s = rw s
take_identifier-append (ch ∷ word) rest w s = rw (take_identifier-append word rest w.1 s, w.0)

pub next_token-word :
    (word rest : List ℕ)
    → IsWord word
    → Stops rest
    → next_token (word ++ rest) ≡ (of_text word, rest)
unfolding next_token token_at skip_spaces
next_token-word [] rest w s = absurd w
next_token-word (ch ∷ word) rest w s = rw (w.0, w.1, w.2, take_identifier-append word rest w.3 s)

pub next_token-space : (rest : List ℕ) → next_token (32 ∷ rest) ≡ next_token rest
unfolding next_token
next_token-space rest = refl

pub next_token-pipe : (rest : List ℕ) → next_token (124 ∷ rest) ≡ (of_kind pipe, rest)
unfolding next_token
next_token-pipe rest = refl

pub next_token-nil : next_token [] ≡ (of_kind eof, [])
unfolding next_token
next_token-nil = refl

length-skip_spaces : (s : List ℕ) → length (skip_spaces s) ≤ length s
unfolding skip_spaces
length-skip_spaces [] = omega arith
length-skip_spaces (ch ∷ s) = ground (arith, length-skip_spaces s)

length-take_identifier : (s : List ℕ) → length (take_identifier s).1 ≤ length s
unfolding take_identifier
length-take_identifier [] = omega arith
length-take_identifier (ch ∷ s) = ground (arith, length-take_identifier s)

-- A token other than `eof` is paid for by a character.
abbrev pub weight : TokenKind → ℕ
weight eof = 0
weight _ = 1

token_at-shorter : (s : List ℕ) → length (token_at s).1 + weight (token_at s).0.kind ≤ length s
unfolding token_at
token_at-shorter [] = omega arith
token_at-shorter (ch ∷ s) = ground (arith, length-take_identifier s)

pub next_token-shorter :
    (s : List ℕ) → length (next_token s).1 + weight (next_token s).0.kind ≤ length s
unfolding next_token
next_token-shorter s = omega (arith, token_at-shorter (skip_spaces s), length-skip_spaces s)
