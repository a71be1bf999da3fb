-- ===== src/Shell/LineEditor/Moves.antt =====
-- The valid states of the editor, what it is for a console to follow a step, and the steps that only
-- move the cursor.
use umbongo.Base.{
  ℕ, suc, ◌+◌, ◌-◌, ◌^◌, ◌≤◌, ◌<◌, ◌≡◌, refl, sym, List, [], ◌++◌, append-nil, Option, some, true,
  Bool, arith, length, Bool-cases, inl, inr, ◌==◌, subst,
}
use umbongo.Console.Feed.{Console}
use umbongo.Console.Follow.{Displays, Feeds, Feeds-append, Feeds-nil, moved_right, IsPlain}
use umbongo.Shell.Lexer.Words.{All}
use umbongo.Shell.LineEditor.{LineEditor, Step, goto_start, goto_end, ctrl_left, ctrl_right}
use umbongo.Shell.LineBuffer.{left, right, repeat}
use umbongo.Shell.LineEditor.Edits.{word_right_lem, word_left_lem}
use umbongo.Shell.LineEditor.Printed.{Displays-eq, Feeds-weaken, Feeds-right, Feeds-left}

abbrev pub IsEntry : List ℕ → Type 0
IsEntry h = All IsPlain h × (length h < 2 ^ 32)

-- The cursor is in the line, and nothing that was typed is a control character of the terminal.
pub record IsValid (e : LineEditor) : Type 0 where
  pub cursor : e.cursor_pos ≤ length e.buffer
  pub plain : All IsPlain e.buffer
  pub past : All IsEntry e.history

-- A step ends in a valid state, and where `b` holds a console follows what it prints.
pub record Handled (b : Bool) (e : LineEditor) (m : Option Step) : Type 0 where
  pub out : List ℕ
  pub next : LineEditor
  pub ran : m ≡ some (out, next)
  pub valid : IsValid next
  pub shows :
      (columns : ℕ) (prefix : List ℕ) (c : Console)
      → b ≡ true
      → length prefix + length next.buffer < columns
      → Displays columns prefix e.buffer e.cursor_pos c
      → Feeds out c (Displays columns prefix next.buffer next.cursor_pos)

pub nothing : (b : Bool) {e : LineEditor} → IsValid e → Handled b e (some ([], e))
nothing b {e} v = record {
  out = [];
  next = e;
  ran = refl;
  valid = v;
  shows = λ columns prefix c i room d. Feeds-nil c d;
}

-- The cursor moves to `pos`.
pub moved_to :
    {e : LineEditor} (pos : ℕ)
    → IsValid e
    → pos ≤ length e.buffer
    → IsValid (record e { cursor_pos = pos })
moved_to pos v h = record { cursor = h; plain = v.plain; past = v.past }

pub goto_start-Handled : {e : LineEditor} → IsValid e → Handled true e (some (goto_start e))
unfolding goto_start
goto_start-Handled {e} v = record {
  out = repeat e.cursor_pos left;
  next = record e { cursor_pos = 0 };
  ran = refl;
  valid = moved_to 0 v (omega arith);
  shows =
      λ columns prefix c i room d. Feeds-left e.cursor_pos 0 c (Displays-eq refl (omega arith) d);
}

pub goto_end-Handled : {e : LineEditor} → IsValid e → Handled true e (some (goto_end e))
unfolding goto_end
goto_end-Handled {e} v =
    let n = length e.buffer - e.cursor_pos in
    record {
      out = repeat n right;
      next = record e { cursor_pos = length e.buffer };
      ran = refl;
      valid = moved_to (length e.buffer) v (omega arith);
      shows = λ columns prefix c i room d.
          Feeds-weaken _ _ (Feeds-right n e.cursor_pos c (omega (arith, v.cursor)) d)
            (λ c' d'. Displays-eq refl (omega (arith, v.cursor)) d');
    }

pub ctrl_right-Handled : {e : LineEditor} → IsValid e → Handled true e (ctrl_right e)
unfolding ctrl_right
ctrl_right-Handled {e} v = elim (Bool-cases (e.cursor_pos == length e.buffer)) [
  | inl end ↦ rw end (nothing true v)
  | inr more ↦
      let inside : e.cursor_pos < length e.buffer = ground (arith, v.cursor) in
      let (k, ran, small) =
        word_right_lem (length e.buffer - (e.cursor_pos + 1)) (e.cursor_pos + 1) e.buffer
          (omega arith) in
      record {
        out = repeat (suc k) right;
        next = record e { cursor_pos = e.cursor_pos + 1 + k };
        ran = rw (more, ran);
        valid = moved_to (e.cursor_pos + 1 + k) v (omega (arith, small));
        shows = λ columns prefix c i room d.
            Feeds-weaken _ _ (Feeds-right (suc k) e.cursor_pos c (omega (arith, small)) d)
              (λ c' d'. Displays-eq refl (omega arith) d');
      }
]

pub ctrl_left-Handled : {e : LineEditor} → IsValid e → Handled true e (ctrl_left e)
unfolding ctrl_left
ctrl_left-Handled {e} v = elim (Bool-cases (e.cursor_pos == 0)) [
  | inl start ↦ rw start (nothing true v)
  | inr more ↦
      let some_left : 0 < e.cursor_pos = ground arith in
      let (k, ran, small) = word_left_lem (e.cursor_pos - 1) e.buffer (omega (arith, v.cursor)) in
      let far = repeat (e.cursor_pos - k) left in
      elim (Bool-cases (k == 0)) [
        | inl zero' ↦
            let k0 : k ≡ 0 = ground arith in
            record {
              out = far ++ [];
              next = record e { cursor_pos = 0 };
              ran = rw (more, ran, zero');
              valid = moved_to 0 v (omega arith);
              shows = λ columns prefix c i room d.
                  subst (λ r. Feeds r c (Displays columns prefix e.buffer 0)) (sym (append-nil far))
                    (Feeds-left (e.cursor_pos - k) 0 c (Displays-eq refl (omega arith) d));
            }
        | inr inner ↦ record {
          out = far ++ right;
          next = record e { cursor_pos = k + 1 };
          ran = rw (more, ran, inner);
          valid = moved_to (k + 1) v (omega (arith, small, v.cursor));
          shows = λ columns prefix c i room d.
              Feeds-append far right c
                (Feeds-left (e.cursor_pos - k) k c (Displays-eq refl (omega (arith, small)) d))
                (λ c' d'. moved_right d' (omega (arith, small, v.cursor)));
        }
      ]
]

pub weaken :
    {b b' : Bool} {e : LineEditor} {m : Option Step}
    → Handled b e m
    → ((b' ≡ true) → (b ≡ true))
    → Handled b' e m
weaken h w = record {
  out = h.out;
  next = h.next;
  ran = h.ran;
  valid = h.valid;
  shows = λ columns prefix c i room d. h.shows columns prefix c (w i) room d;
}
