-- ===== src/Shell/LineEditor/Printed.antt =====
-- How a console follows what the editor's loops print.
use umbongo.Base.{
  ℕ, zero, suc, ◌+◌, ◌≤◌, ◌<◌, ◌≡◌, refl, sym, ap, ◌∙◌, List, [], ◌∷◌, ◌++◌, append_assoc, arith,
  length, length-append, replicate, subst, eq_nil_of_length,
}
use umbongo.Base.Vector.{last_view}
use umbongo.Console.Feed.{Console}
use umbongo.Console.Follow.{
  Displays, Feeds, Feeds-append, Feeds-nil, typed, erased, moved_left, moved_right, IsPlain,
}
use umbongo.Shell.Lexer.Words.{All}
use umbongo.Shell.LineBuffer.{left, right, repeat}

pub Displays-eq :
    {columns : ℕ} {prefix s t : List ℕ} {p q : ℕ} {c : Console}
    → s ≡ t
    → p ≡ q
    → Displays columns prefix s p c
    → Displays columns prefix t q c
Displays-eq {columns} {prefix} {s} {t} {p} {q} {c} e f d =
    subst (λ r. Displays columns prefix t r c) f (subst (λ r. Displays columns prefix r p c) e d)

pub Feeds-weaken :
    (out : List ℕ) (c : Console) {P Q : Console → Type 0}
    → Feeds out c P
    → ((d : Console) → P d → Q d)
    → Feeds out c Q
Feeds-weaken out c (d, ran, p) f = (d, ran, f d p)

module _ {columns : ℕ} {prefix : List ℕ} where
  pub Feeds-right :
      (n pos : ℕ) {text : List ℕ} (c : Console)
      → pos + n ≤ length text
      → Displays columns prefix text pos c
      → Feeds (repeat n right) c (Displays columns prefix text (pos + n))
  Feeds-right zero pos c h d = Feeds-nil c (Displays-eq refl (omega arith) d)
  Feeds-right (suc n) pos {text} c h d =
      Feeds-append right (repeat n right) c (moved_right d (omega arith)) (λ c' d'.
        Feeds-weaken _ _ (Feeds-right n (pos + 1) c' (omega arith) d')
          (λ e shown. Displays-eq refl (omega arith) shown))

  pub Feeds-left :
      (n pos : ℕ) {text : List ℕ} (c : Console)
      → Displays columns prefix text (n + pos) c
      → Feeds (repeat n left) c (Displays columns prefix text pos)
  Feeds-left zero pos c d = Feeds-nil c (Displays-eq refl (omega arith) d)
  Feeds-left (suc n) pos {text} c d =
      Feeds-append left (repeat n left) c (moved_left (Displays-eq refl (omega arith) d))
        (λ c' d'. Feeds-left n pos c' d')

  pub Feeds-erase :
      (n : ℕ) (xs ws : List ℕ) (c : Console)
      → n ≡ length xs
      → Displays columns prefix (xs ++ ws) n c
      → Feeds (replicate n 8) c (Displays columns prefix ws 0)
  Feeds-erase zero xs ws c e d =
      Feeds-nil c (Displays-eq (ap (λ t. t ++ ws) (eq_nil_of_length xs (sym e))) refl d)
  Feeds-erase (suc n) xs ws c e d =
      let (ys, y, split, len) = last_view xs n (sym e) in
      let shape : xs ++ ws ≡ ys ++ y ∷ ws = ap (λ t. t ++ ws) split ∙ append_assoc ys (y ∷ []) ws in
      Feeds-append (8 ∷ []) (replicate n 8) c
        (erased ys y ws (Displays-eq shape (omega (arith, len)) d))
        (λ c' d'. Feeds-erase n ys ws c' (sym len) (Displays-eq refl len d'))

  pub Feeds-typed :
      (out xs ws : List ℕ) (c : Console)
      → All IsPlain out
      → length prefix + length (xs ++ (out ++ ws)) < columns
      → Displays columns prefix (xs ++ ws) (length xs) c
      → Feeds out c (Displays columns prefix (xs ++ (out ++ ws)) (length xs + length out))
  Feeds-typed [] xs ws c h room d = Feeds-nil c (Displays-eq refl (omega arith) d)
  Feeds-typed (ch ∷ out) xs ws c h room d =
      let front = xs ++ ch ∷ [] in
      let len = length-append xs (ch ∷ []) in
      let size = length-append xs (ch ∷ (out ++ ws)) in
      let size' = length-append front (out ++ ws) in
      Feeds-append (ch ∷ []) out c
        (typed xs ws ch d h.0 (omega (arith, length-append xs ws, size, length-append out ws)))
        (λ c' d'.
          Feeds-weaken _ _
            (Feeds-typed out front ws c' h.1 (omega (arith, size, size', len))
              (Displays-eq (sym (append_assoc xs (ch ∷ []) ws)) (omega (arith, len)) d'))
            (λ e shown.
              Displays-eq (append_assoc xs (ch ∷ []) (out ++ ws)) (omega (arith, len)) shown))
