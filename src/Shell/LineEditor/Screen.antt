-- ===== src/Shell/LineEditor/Screen.antt =====
-- The editor and the terminal that it prints to keep in step, whatever key is pressed.
use umbongo.Base.{
  ℕ, ◌+◌, ◌-◌, ◌^◌, ◌<◌, ◌≡◌, refl, ap, List, [], ◌∷◌, ◌++◌, Option, some, true, false, Bool, not,
  ◌&&◌, ◌||◌, arith, length, ltb, Bool-cases, inl, inr, ◌==◌, if◌then◌else◌, subst,
}
use umbongo.Console.Feed.{Console}
use umbongo.Console.Follow.{Displays, Feeds, typed, moved_left, moved_right, IsPlain}
use umbongo.Shell.LineEditor.{
  LineEditor, KeyEvent, Step, ctrl_left, ctrl_right, handle_plain, ctrl_character, ctrl_code, clear,
  handle_ctrl, handle_edit, handle_key_event,
}
use umbongo.Shell.LineBuffer.{left, right}
use umbongo.Shell.LineEditor.Moves.{
  IsValid, IsEntry, Handled, nothing, moved_to, goto_start-Handled, goto_end-Handled,
  ctrl_right-Handled, ctrl_left-Handled, weaken,
}
use umbongo.Shell.LineEditor.Keys.{
  handle_backspace-Handled, insert-Handled, clear_line-Handled, then_step-Handled,
  handle_history-Handled,
}
use umbongo.Shell.LineEditor.Edits.{All-append}
use umbongo.Shell.LineEditor.Printed.{Displays-eq}

-- A key that clears the screen, and one that recalls a line while the cursor is within another, are
-- not followed.
abbrev pub in_step : KeyEvent → LineEditor → Bool
in_step k e =
    not (k.ctrl_pressed && k.character == 108)
    && (k.ctrl_pressed || not (k.code == 0x51 || k.code == 0x52) || e.cursor_pos == length e.buffer)

-- A character that can be typed; a line break is not an edit.
abbrev pub IsTyped : KeyEvent → Type 0
IsTyped k = ((k.character == 27) ≡ false) × ((k.character == 10) ≡ false)

if-Handled :
    {b : Bool} {e : LineEditor} (test : Bool) {m n : Option Step}
    → (test ≡ true → Handled b e m)
    → (test ≡ false → Handled b e n)
    → Handled b e (if test then m else n)
if-Handled true h k = h refl
if-Handled false h k = k refl

arrow_right-Handled :
    {e : LineEditor}
    → IsValid e
    → Handled true e (
        some (
          if ltb e.cursor_pos (length e.buffer)
          then (right, record e { cursor_pos = e.cursor_pos + 1 })
          else ([], e)))
arrow_right-Handled {e} v = elim (Bool-cases (ltb e.cursor_pos (length e.buffer))) [
  | inl inside ↦ record {
    out = right;
    next = record e { cursor_pos = e.cursor_pos + 1 };
    ran = rw inside;
    valid = moved_to (e.cursor_pos + 1) v (ground arith);
    shows = λ columns prefix c i room d. moved_right d (ground arith);
  }
  | inr end ↦ rw end (nothing true v)
]

arrow_left-Handled :
    {e : LineEditor}
    → IsValid e
    → Handled true e (
        some (
          if e.cursor_pos == 0
          then ([], e)
          else (left, record e { cursor_pos = e.cursor_pos - 1 })))
arrow_left-Handled {e} v = elim (Bool-cases (e.cursor_pos == 0)) [
  | inl start ↦ rw start (nothing true v)
  | inr inner ↦ record {
    out = left;
    next = record e { cursor_pos = e.cursor_pos - 1 };
    ran = rw inner;
    valid = moved_to (e.cursor_pos - 1) v (omega (arith, v.cursor));
    shows = λ columns prefix c i room d. moved_left (Displays-eq refl (ground arith) d);
  }
]

handle_plain-Handled :
    {e : LineEditor} (k : KeyEvent)
    → IsValid e
    → IsPlain k.character
    → length e.buffer + 1 < 2 ^ 32
    → Handled true e (handle_plain k e)
unfolding handle_plain
handle_plain-Handled {e} k v plain small =
    if-Handled (k.code == 0x4a) (λ a. goto_start-Handled v)
      (λ a.
        if-Handled (k.code == 0x4d) (λ b. goto_end-Handled v)
          (λ b.
            if-Handled (k.code == 0x4f) (λ c. arrow_right-Handled v)
              (λ c.
                if-Handled (k.code == 0x50) (λ d. arrow_left-Handled v)
                  (λ d.
                    if-Handled (k.character == 0) (λ n. nothing true v)
                      (λ n. insert-Handled k.character v plain small)))))

ctrl_code-Handled :
    (prompt cwd : List ℕ) {e : LineEditor} (code : ℕ)
    → IsValid e
    → Handled true e (ctrl_code prompt cwd code e)
ctrl_code-Handled prompt cwd code v =
    if-Handled (code == 0x4f) (λ a. ctrl_right-Handled v)
      (λ a. if-Handled (code == 0x50) (λ b. ctrl_left-Handled v) (λ b. nothing true v))

ctrl_code-buffer :
    (prompt cwd : List ℕ) (e : LineEditor) (code : ℕ) {out : List ℕ} {f : LineEditor}
    → ctrl_code prompt cwd code e ≡ some (out, f)
    → f.buffer ≡ e.buffer
unfolding ctrl_right ctrl_left
ctrl_code-buffer prompt cwd e code ran = ground arith

-- What ctrl and a letter do; the index tells the key that clears the screen.
ctrl_character-Handled :
    (prompt cwd : List ℕ) {e : LineEditor} (ch : ℕ)
    → IsValid e
    → Handled (not (ch == 108)) e (ctrl_character prompt cwd ch e)
ctrl_character-Handled prompt cwd {e} ch v =
    if-Handled (ch == 97) (λ a. weaken (goto_start-Handled v) (λ w. refl))
      (λ a.
        if-Handled (ch == 101) (λ b. weaken (goto_end-Handled v) (λ w. refl))
          (λ b.
            if-Handled (ch == 108)
              (λ l. record {
                out = (clear prompt cwd e).0;
                next = (clear prompt cwd e).1;
                ran = refl;
                valid = record { cursor = omega arith; plain = tt; past = v.past };
                shows = λ columns prefix c i room d. absurd (ground (arith, i, l));
              })
              (λ l.
                if-Handled (ch == 117) (λ u. weaken (clear_line-Handled v) (λ w. refl))
                  (λ u. nothing _ v))))

handle_ctrl-Handled :
    (prompt cwd : List ℕ) {e : LineEditor} (k : KeyEvent)
    → IsValid e
    → Handled (not (k.character == 108)) e (handle_ctrl prompt cwd k e)
handle_ctrl-Handled prompt cwd {e} k v =
    let first = ctrl_character-Handled prompt cwd k.character v in
    let second = ctrl_code-Handled prompt cwd k.code first.valid in
    then_step-Handled (ctrl_code prompt cwd k.code) first (λ i. refl) second
      (omega (arith, ap length (ctrl_code-buffer prompt cwd first.next k.code second.ran)))

handle_edit-Handled :
    (prompt cwd : List ℕ) {e : LineEditor} (k : KeyEvent)
    → IsValid e
    → IsTyped k
    → length e.buffer + 1 < 2 ^ 32
    → Handled (in_step k e) e (handle_edit prompt cwd k e)
handle_edit-Handled prompt cwd {e} k v typed small =
    if-Handled (k.character == 8) (λ a. weaken (handle_backspace-Handled v) (λ i. refl))
      (λ a.
        if-Handled k.ctrl_pressed
          (λ b. weaken (handle_ctrl-Handled prompt cwd k v) (λ i. ground (arith, i, b)))
          (λ b.
            if-Handled (k.code == 0x51 || k.code == 0x52)
              (λ h. weaken (handle_history-Handled k.code v) (λ i. ground (arith, i, h, b)))
              (λ h. weaken (handle_plain-Handled k v (typed.0, a, typed.1) small) (λ i. refl))))

-- Every key event is handled without a failed assertion, and leaves a valid state: the cursor in the
-- line, and no control character of the terminal in the line or in the history. The event's
-- character is not ESC, the state is valid, and the line is shorter than 2^32 - 1.
pub handle_key_event-IsValid :
    (prompt cwd : List ℕ) {e : LineEditor} (k : KeyEvent)
    → IsValid e
    → (k.character == 27) ≡ false
    → length e.buffer + 1 < 2 ^ 32
    → (line out : List ℕ) × (f : LineEditor) × (handle_key_event prompt cwd k e
        ≡ some (line, (out, f)))
      × IsValid f
handle_key_event-IsValid prompt cwd {e} k v no_esc small = elim (Bool-cases (k.character == 10)) [
  | inr other ↦
      let h = handle_edit-Handled prompt cwd k v (no_esc, other) small in
      ([], h.out, h.next, rw (other, h.ran), h.valid)
  | inl enter ↦
      let entered : LineEditor = record {
        buffer = [];
        history = e.history ++ e.buffer ∷ [];
        cursor_pos = 0;
        history_pos = length e.history + 1;
      } in
      elim (Bool-cases (length e.buffer == 0)) [
        | inl nil ↦ (10 ∷ [], 10 ∷ [], e, rw (enter, nil), v)
        | inr more ↦ (
          e.buffer,
          10 ∷ [],
          entered,
          rw (enter, more),
          record {
            cursor = omega arith;
            plain = tt;
            past =
                All-append IsEntry e.history (e.buffer ∷ []) v.past
                  ((v.plain, omega (arith, small)), tt);
          },
        )
      ]
]

-- A console that displays the line being typed, its cursor included, goes on to display it when it
-- is fed what the editor prints for a key. The key is no ESC, no line break, not ctrl and `l`, and
-- none of the arrows up and down while the cursor is within the line; the state is valid, and the
-- new line fits into the row behind the prompt.
pub handle_edit-Displays :
    (prompt cwd : List ℕ) {e : LineEditor} (k : KeyEvent) {out : List ℕ} {f : LineEditor}
    (columns : ℕ) (prefix : List ℕ) (c : Console)
    → IsValid e
    → IsTyped k
    → in_step k e ≡ true
    → length e.buffer + 1 < 2 ^ 32
    → handle_edit prompt cwd k e ≡ some (out, f)
    → length prefix + length f.buffer < columns
    → Displays columns prefix e.buffer e.cursor_pos c
    → Feeds out c (Displays columns prefix f.buffer f.cursor_pos)
handle_edit-Displays prompt cwd {e} k {out} {f} columns prefix c v typed i small ran room d =
    let h = handle_edit-Handled prompt cwd k v typed small in
    let same : h.out ≡ out = cc in
    let same' : h.next ≡ f = cc in
    let shown =
      h.shows columns prefix c i
        (omega (arith, room, ap (λ (g : LineEditor). length g.buffer) same')) d in
    subst (λ (g : LineEditor). Feeds out c (Displays columns prefix g.buffer g.cursor_pos)) same'
      (subst (λ o. Feeds o c (Displays columns prefix h.next.buffer h.next.cursor_pos)) same shown)
