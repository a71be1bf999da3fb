-- ===== src/Shell/LineEditor/Keys.antt =====
-- The steps that change the line, and the keys that do them.
use umbongo.Base.{
  ℕ, ◌+◌, ◌-◌, ◌^◌, ◌≤◌, ◌<◌, ◌≡◌, refl, sym, ap, ◌∙◌, List, [], ◌∷◌, ◌++◌, append_assoc,
  append-nil, eq_nil_of_length, Option, some, true, Bool, arith, length, length-append, get_or,
  add_u32, ltb, ltb→lt, lt→ltb, Bool-cases, inl, inr, ◌==◌, subst, replicate,
}
use umbongo.Base.Vector.{split_at, last_view}
use umbongo.Console.Feed.{Console}
use umbongo.Console.Follow.{Displays, Feeds, Feeds-append, typed, erased, IsPlain}
use umbongo.Shell.Lexer.Words.{All}
use umbongo.Shell.LineEditor.{
  LineEditor, Step, then_step, clear_line, handle_backspace, insert, history_move, recall,
  handle_history,
}
use umbongo.Shell.LineEditor.Edits.{
  All-append, All-front, All-back, All-get_or, remove-append, remove_before-append, shift_right-put,
}
use umbongo.Shell.LineEditor.Printed.{Displays-eq, Feeds-weaken, Feeds-erase, Feeds-typed}
use umbongo.Shell.LineEditor.Moves.{IsValid, IsEntry, Handled, nothing}

pub handle_backspace-Handled : {e : LineEditor} → IsValid e → Handled true e (handle_backspace e)
unfolding handle_backspace
handle_backspace-Handled {e} v = elim (Bool-cases (e.cursor_pos == 0)) [
  | inl start ↦ rw start (nothing true v)
  | inr more ↦
      let some_left : 0 < e.cursor_pos = ground arith in
      let (front, ws, split, len) = split_at e.buffer e.cursor_pos (omega (arith, v.cursor)) in
      let (xs, x, split', len') = last_view front (e.cursor_pos - 1) (omega (arith, len)) in
      let shape : e.buffer ≡ xs ++ x ∷ ws = split ∙ rw split' (append_assoc xs (x ∷ []) ws) in
      let plain = subst (All IsPlain) shape v.plain in
      record {
        out = 8 ∷ [];
        next = record e { buffer = xs ++ ws; cursor_pos = e.cursor_pos - 1 };
        ran = rw (more, shape, remove-append xs x ws (e.cursor_pos - 1) (sym len'));
        valid = record {
          cursor = omega (arith, len', length-append xs ws);
          plain =
              All-append IsPlain xs ws (All-front IsPlain xs (x ∷ ws) plain)
                (All-back IsPlain xs (x ∷ ws) plain).1;
          past = v.past;
        };
        shows = λ columns prefix c i room d.
            Feeds-weaken _ _ (erased xs x ws (Displays-eq shape (omega (arith, len')) d))
              (λ c' d'. Displays-eq refl len' d');
      }
]

pub insert-Handled :
    {e : LineEditor} (ch : ℕ)
    → IsValid e
    → IsPlain ch
    → length e.buffer + 1 < 2 ^ 32
    → Handled true e (insert ch e)
unfolding insert
insert-Handled {e} ch v plain small =
    let (xs, ws, split, len) = split_at e.buffer e.cursor_pos (omega (arith, v.cursor)) in
    let front = All-front IsPlain xs ws (subst (All IsPlain) split v.plain) in
    let back = All-back IsPlain xs ws (subst (All IsPlain) split v.plain) in
    let size = length-append xs (ch ∷ ws) in
    let size' = length-append xs ws in
    let total : length e.buffer ≡ length (xs ++ ws) = ap length split in
    let moved : add_u32 e.cursor_pos 1 ≡ length xs + 1 = omega (arith, len, total, size') in
    let (v', shifted, written) = shift_right-put e.cursor_pos xs ws ch len (omega (arith, total)) in
    record {
      out = ch ∷ [];
      next = record e { buffer = xs ++ ch ∷ ws; cursor_pos = length xs + 1 };
      ran = rw (split, shifted, written, moved);
      valid = record {
        cursor = omega (arith, size);
        plain = All-append IsPlain xs (ch ∷ ws) front (plain, back);
        past = v.past;
      };
      shows = λ columns prefix c i room d.
          typed xs ws ch (Displays-eq split len d) plain (omega (arith, room, size, size'));
    }

pub clear_line-Handled : {e : LineEditor} → IsValid e → Handled true e (clear_line e)
unfolding clear_line
clear_line-Handled {e} v =
    let (xs, ws, split, len) = split_at e.buffer e.cursor_pos (omega (arith, v.cursor)) in
    record {
      out = replicate e.cursor_pos 8;
      next = record e { buffer = ws; cursor_pos = 0 };
      ran = rw (split, remove_before-append e.cursor_pos xs ws len);
      valid = record {
        cursor = omega arith;
        plain = All-back IsPlain xs ws (subst (All IsPlain) split v.plain);
        past = v.past;
      };
      shows = λ columns prefix c i room d.
          Feeds-erase e.cursor_pos xs ws c len (Displays-eq split refl d);
    }

-- Two steps, the second of which does not make the line shorter.
pub then_step-Handled :
    {b b' : Bool} {e : LineEditor} {m : Option Step} (f : LineEditor → Option Step)
    (h : Handled b e m)
    → ((b ≡ true) → (b' ≡ true))
    → (k : Handled b' h.next (f h.next)) → length h.next.buffer ≤ length k.next.buffer
    → Handled b e (then_step m f)
then_step-Handled {b} {b'} {e} {m} f h w k grows = record {
  out = h.out ++ k.out;
  next = k.next;
  ran = rw (h.ran, k.ran);
  valid = k.valid;
  shows = λ columns prefix c i room d.
      Feeds-append h.out k.out c (h.shows columns prefix c i (omega (arith, grows, room)) d)
        (λ c' d'. k.shows columns prefix c' (w i) room d');
}

-- The line that an arrow up or down goes to.
pub handle_history-Handled :
    {e : LineEditor} (code : ℕ)
    → IsValid e
    → Handled (e.cursor_pos == length e.buffer) e (handle_history code e)
unfolding handle_history clear_line recall history_move
handle_history-Handled {e} code v =
    let (xs, ws, split, len) = split_at e.buffer e.cursor_pos (omega (arith, v.cursor)) in
    let rest = All-back IsPlain xs ws (subst (All IsPlain) split v.plain) in
    let p = (history_move code e).history_pos in
    let entry = get_or e.history p [] in
    let erase =
      λ (columns : ℕ) (prefix : List ℕ) (c : Console)
          (d : Displays columns prefix e.buffer e.cursor_pos c).
        Feeds-erase e.cursor_pos xs ws c len (Displays-eq split refl d) in
    elim (Bool-cases (ltb p (length e.history))) [
      | inl inside ↦
          let known =
            All-get_or IsEntry e.history p [] v.past (ltb→lt p (length e.history) inside) in
          let no_wrap : add_u32 0 (length entry) ≡ length entry = omega (arith, known.1) in
          record {
            out = replicate e.cursor_pos 8 ++ entry;
            next = record (history_move code e) { buffer = ws ++ entry; cursor_pos = length entry };
            ran = rw (split, remove_before-append e.cursor_pos xs ws len, inside, no_wrap);
            valid = record {
              cursor = omega (arith, length-append ws entry);
              plain = All-append IsPlain ws entry rest known.0;
              past = v.past;
            };
            shows = λ columns prefix c i room d.
                let nil : ws ≡ [] =
                  eq_nil_of_length ws
                    (ground (arith, i, len, ap length split, length-append xs ws)) in
                Feeds-append (replicate e.cursor_pos 8) entry c (erase columns prefix c d) (λ c' d'.
                  Feeds-weaken _ _
                    (Feeds-typed entry [] ws c' known.0
                      (omega (arith, room, length-append ws entry, length-append entry ws)) d')
                    (λ c'' d''.
                      Displays-eq
                        (ap (λ t. entry ++ t) nil
                          ∙ append-nil entry
                          ∙ ap (λ t. t ++ entry) (sym nil))
                        (omega arith) d''));
          }
      | inr outside ↦ record {
        out = replicate e.cursor_pos 8 ++ [];
        next = record (history_move code e) { buffer = ws; cursor_pos = 0 };
        ran = rw (split, remove_before-append e.cursor_pos xs ws len, outside);
        valid = record { cursor = omega arith; plain = rest; past = v.past };
        shows = λ columns prefix c i room d.
            subst (λ r. Feeds r c (Displays columns prefix ws 0))
              (sym (append-nil (replicate e.cursor_pos 8))) (erase columns prefix c d);
      }
    ]

-- An arrow up or down that goes to a line of the history while `ws` is behind the cursor: the line
-- becomes `ws` and then the entry, but the console comes to display the entry and then `ws`, the
-- cursor between them. The state is valid, and the text fits into the row behind the prompt.
pub handle_history-recalls :
    {e : LineEditor} (code : ℕ) (xs ws : List ℕ) (columns : ℕ) (prefix : List ℕ) (c : Console)
    → IsValid e
    → e.buffer ≡ xs ++ ws
    → e.cursor_pos ≡ length xs
    → (history_move code e).history_pos < length e.history
    → length prefix + length (get_or e.history (history_move code e).history_pos [] ++ ws) < columns
    → Displays columns prefix e.buffer e.cursor_pos c
    → (out : List ℕ) × (f : LineEditor) × (handle_history code e ≡ some (out, f))
      × (f.buffer ≡ ws ++ get_or e.history (history_move code e).history_pos [])
      × (f.cursor_pos ≡ length (get_or e.history (history_move code e).history_pos []))
      × Feeds out c (
          Displays columns prefix
            (get_or e.history (history_move code e).history_pos [] ++ ws)
            f.cursor_pos)
unfolding handle_history clear_line recall history_move
handle_history-recalls {e} code xs ws columns prefix c v split len inside room d =
    let p = (history_move code e).history_pos in
    let entry = get_or e.history p [] in
    let known = All-get_or IsEntry e.history p [] v.past inside in
    let found : ltb p (length e.history) ≡ true = lt→ltb p (length e.history) inside in
    let no_wrap : add_u32 0 (length entry) ≡ length entry = omega (arith, known.1) in
    (
      replicate e.cursor_pos 8 ++ entry,
      record (history_move code e) { buffer = ws ++ entry; cursor_pos = length entry },
      rw (split, remove_before-append e.cursor_pos xs ws len, found, no_wrap),
      refl,
      refl,
      Feeds-append (replicate e.cursor_pos 8) entry c
          (Feeds-erase e.cursor_pos xs ws c len (Displays-eq split refl d))
          (λ c' d'.
            Feeds-weaken _ _ (Feeds-typed entry [] ws c' known.0 room d')
              (λ c'' d''. Displays-eq refl (omega arith) d'')),
    )
