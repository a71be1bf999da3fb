-- ===== src/Shell/Parser/Ends.antt =====
-- The fuel of the parser is enough for every line.
use umbongo.Base.{ℕ, zero, suc, ◌≤◌, ◌<◌, ◌≡◌, ◌≢◌, refl, some, true, arith, inl, inr, Option-cases}
use umbongo.Base.Outcome.{Outcome, done, panic, no_fuel, ◌>>=◌}
use umbongo.Shell.Lexer.{
  Token, TokenKind, identifier, pipe, same_kind, Lexer, next, peek, next_token,
}
use umbongo.Shell.Lexer.Words.{weight, next_token-shorter}
use umbongo.Shell.Parser.{
  text, consume, expect, identifiers, parse_list, parse_command, pipe_rest, parse_pipe, parse, size,
}

-- The result is no `no_fuel`, and what is left of the line has at most `n` tokens.
abbrev Ends {ℓ} : {A : Type ℓ} → ℕ → Outcome (A × Lexer) → Type 0
Ends n (done r) = size r.1 ≤ n
Ends n panic = Unit
Ends n no_fuel = ⊥

size-expect : (k : TokenKind) (l : Lexer) → size (expect k l).1 ≤ size l
unfolding expect next
size-expect k l = ground (arith, next_token-shorter l.source)

size-consume : (k : TokenKind) (l : Lexer) → size (consume k l).1 ≤ size l
unfolding consume peek next
size-consume k l = ground (arith, next_token-shorter l.source)

weight_of_same : (a b : TokenKind) → same_kind a b ≡ true → weight a ≡ weight b
weight_of_same a b h = ground arith

-- A token that is consumed makes the line shorter.
consume-shorter :
    (k : TokenKind) (l : Lexer) {t : Token}
    → weight k ≡ 1
    → (consume k l).0 ≡ some t
    → size (consume k l).1 < size l
unfolding consume peek next
consume-shorter k l w e = ground (
  arith,
  next_token-shorter l.source,
  weight_of_same l.peek_token.kind k,
  weight_of_same (next_token l.source).0.kind k,
)

Ends-text : (t : Token) → text t ≢ no_fuel
Ends-text t e = ground arith

Ends-bind {ℓ κ} :
    {A : Type ℓ} {B : Type κ} (m : Outcome A) (f : A → Outcome (B × Lexer)) (n : ℕ)
    → m ≢ no_fuel
    → ((a : A) → m ≡ done a → Ends n (f a))
    → Ends n (m >>= f)
Ends-bind (done a) f n h k = k a refl
Ends-bind panic f n h k = tt
Ends-bind no_fuel f n h k = absurd (h refl)

Ends-then {ℓ κ} :
    {A : Type ℓ} {B : Type κ} (m : Outcome (A × Lexer)) (f : A × Lexer → Outcome (B × Lexer))
    (n k : ℕ)
    → Ends n m
    → ((r : A × Lexer) → size r.1 ≤ n → Ends k (f r))
    → Ends k (m >>= f)
Ends-then (done r) f n k h next = next r h
Ends-then panic f n k h next = tt
Ends-then no_fuel f n k h next = h

bind-ne-no_fuel {ℓ κ} :
    {A : Type ℓ} {B : Type κ} (m : Outcome (A × Lexer)) (f : A × Lexer → Outcome B) (n : ℕ)
    → Ends n m
    → ((r : A × Lexer) → f r ≢ no_fuel)
    → (m >>= f) ≢ no_fuel
bind-ne-no_fuel (done r) f n h g e = g r e
bind-ne-no_fuel panic f n h g e = cc
bind-ne-no_fuel no_fuel f n h g e = h

identifiers-Ends : (fuel : ℕ) (l : Lexer) → size l < fuel → Ends (size l) (identifiers fuel l)
unfolding identifiers
identifiers-Ends zero l h = absurd (omega arith)
identifiers-Ends (suc fuel) l h = elim (Option-cases (consume identifier l).0) [
  | inl none' ↦ rw (none', identifiers) (size-consume identifier l)
  | inr (t, some') ↦
      let less = consume-shorter identifier l refl some' in
      let rest = identifiers-Ends fuel (consume identifier l).1 (omega (arith, less)) in
      rw (some', identifiers)
        (Ends-bind (text t) _ (size l) (Ends-text t) (λ s e.
          Ends-then (identifiers fuel (consume identifier l).1) _ _ (size l) rest
            (λ r small. omega (arith, less))))
]

parse_list-Ends : (fuel : ℕ) (l : Lexer) → size l < fuel → Ends (size l) (parse_list fuel l)
unfolding parse_list
parse_list-Ends fuel l h =
    let less = size-expect identifier l in
    let rest = identifiers-Ends fuel (expect identifier l).1 (omega (arith, less)) in
    Ends-bind (text (expect identifier l).0) _ (size l) (Ends-text (expect identifier l).0) (λ s e.
      Ends-then (identifiers fuel (expect identifier l).1) _ _ (size l) rest
        (λ r small. omega (arith, less)))

parse_command-Ends : (fuel : ℕ) (l : Lexer) → size l < fuel → Ends (size l) (parse_command fuel l)
unfolding parse_command
parse_command-Ends fuel l h =
    Ends-then (parse_list fuel l) _ (size l) (size l) (parse_list-Ends fuel l h) (λ r small. small)

parse_pipe-Ends : (fuel : ℕ) (l : Lexer) → size l < fuel → Ends (size l) (parse_pipe fuel l)
unfolding parse_pipe
parse_pipe-Ends zero l h = absurd (omega arith)
parse_pipe-Ends (suc fuel) l h =
    Ends-then (parse_command (suc fuel) l) _ (size l) (size l) (parse_command-Ends (suc fuel) l h)
      λ lhs small. elim (Option-cases (consume pipe lhs.1).0) [
        | inl none' ↦ rw (none', pipe_rest) (omega (arith, size-consume pipe lhs.1))
        | inr (t, some') ↦
            rw (some', pipe_rest)
              (Ends-then (parse_pipe fuel (consume pipe lhs.1).1) _ _ (size l)
                (parse_pipe-Ends fuel (consume pipe lhs.1).1
                  (omega (arith, consume-shorter pipe lhs.1 refl some')))
                (λ r less. omega (arith, size-consume pipe lhs.1)))
      ]

-- Every line is parsed to a tree or ends in a panic: the parser never runs on.
pub parse-ne-no_fuel : (l : Lexer) → parse l ≢ no_fuel
unfolding parse
parse-ne-no_fuel l =
    bind-ne-no_fuel (parse_pipe (suc (size l)) l) _ (size l)
      (parse_pipe-Ends (suc (size l)) l (omega arith)) (λ r e. cc)
