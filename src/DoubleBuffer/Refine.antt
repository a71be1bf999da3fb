-- ===== src/DoubleBuffer/Refine.antt =====
-- A valid `DoubleBuffer` is a first-in first-out queue of bytes.
use mathlib.Core.List.{append_assoc}
use umbongo.Base.{
  ℕ, ◌+◌, ◌-◌, ◌≤◌, ◌<◌, ◌≡◌, ap, sym, ◌∙◌, List, [], ◌∷◌, ◌↔◌, ◌==◌, ◌++◌, append-nil, true, arith,
  length, take, min, sub_size, length-take, length-append, eq_nil_of_length, copy_out,
  copy_out-append, copy_out-copy_in_before, copy_out-copy_in_behind, copy_out-copy_in_self,
  length-copy_out, copy_out-zero,
}
use umbongo.DoubleBuffer.{DoubleBuffer, swap_halves, read_half, read, write, empty, full}
use umbongo.DoubleBuffer.Inv.{IsValid, swap_halves-IsValid, read-IsValid, write-IsValid}

-- The bytes of the read half that are still to be read, and those of the write half behind them.
abbrev unread : DoubleBuffer → List ℕ
unread b =
    copy_out b.bytes (b.read_buffer.start + b.read_position) (b.read_buffer.size - b.read_position)

abbrev written : DoubleBuffer → List ℕ
written b = copy_out b.bytes b.write_buffer.start b.write_buffer.size

unfoldable pub contents : DoubleBuffer → List ℕ
contents b = unread b ++ written b

contents-swap_halves : {b : DoubleBuffer} → IsValid b → contents (swap_halves b) ≡ contents b
unfolding swap_halves contents
contents-swap_halves {b} v = ground (
  arith,
  copy_out-zero b.bytes b.read_buffer.start,
  copy_out-zero b.bytes (b.read_buffer.start + b.read_position),
  append-nil (copy_out b.bytes b.write_buffer.start b.write_buffer.size),
)

contents-read_half :
    (n : ℕ) {b : DoubleBuffer}
    → IsValid b
    → (read_half n b).0 ++ contents (read_half n b).1 ≡ contents b
unfolding read_half contents
contents-read_half n {b} v = ground (
  arith,
  copy_out-append b.bytes (b.read_buffer.start + b.read_position)
      (min n (sub_size b.read_buffer.size b.read_position))
      (b.read_buffer.size - (read_half n b).1.read_position) (b.read_buffer.size - b.read_position)
      (b.read_buffer.start + (read_half n b).1.read_position),
  append_assoc (read_half n b).0 (unread (read_half n b).1) (written b),
)

contents-write :
    (source : List ℕ) {b : DoubleBuffer}
    → IsValid b
    → contents (write source b).1 ≡ contents b ++ take (write source b).0 source
unfolding write contents
contents-write source {b} v =
    let taken = take (write source b).0 source in
    let at = b.write_buffer.start + b.write_buffer.size in
    ground (
      arith,
      length-take (write source b).0 source,
      copy_out-copy_in_before b.bytes taken at b.write_buffer.start b.write_buffer.size,
      copy_out-copy_in_self b.bytes taken at,
      copy_out-append (write source b).1.bytes b.write_buffer.start b.write_buffer.size
          (length taken) (write source b).1.write_buffer.size at,
      copy_out-copy_in_before b.bytes taken at (b.read_buffer.start + b.read_position)
          (b.read_buffer.size - b.read_position),
      copy_out-copy_in_behind b.bytes taken at (b.read_buffer.start + b.read_position)
          (b.read_buffer.size - b.read_position),
      append_assoc (unread b) (written b) taken,
    )

length-contents :
    {b : DoubleBuffer}
    → IsValid b
    → length (contents b) ≡ b.read_buffer.size - b.read_position + b.write_buffer.size
unfolding contents
length-contents {b} v = ground (
  arith,
  length-append (unread b) (written b),
  length-copy_out b.bytes (b.read_buffer.start + b.read_position)
      (b.read_buffer.size - b.read_position),
  length-copy_out b.bytes b.write_buffer.start b.write_buffer.size,
)

-- A valid buffer reports itself empty exactly when it holds no byte.
pub empty_iff : {b : DoubleBuffer} → IsValid b → (empty b ≡ true) ↔ (contents b ≡ [])
unfolding empty
empty_iff {b} v = (
  λ h. eq_nil_of_length (contents b) (ground (arith, length-contents v)),
  λ h. ground (arith, length-contents v, ap length h),
)

length-read_half :
    (n : ℕ) {b : DoubleBuffer}
    → IsValid b
    → length (read_half n b).0 ≡ min n (b.read_buffer.size - b.read_position)
unfolding read_half
length-read_half n {b} v = ground (
  arith,
  length-copy_out b.bytes (b.read_buffer.start + b.read_position)
      (min n (b.read_buffer.size - b.read_position)),
)

-- After the exchange the read half has bytes left, if there are any.
unread_of_swapped :
    {b : DoubleBuffer}
    → IsValid b
    → (swap_halves b).read_buffer.size - (swap_halves b).read_position ≡ 0
    → length (contents b) ≡ 0
unfolding swap_halves
unread_of_swapped {b} v h = ground (arith, length-contents v)

-- `read` of a valid buffer into a span of `n` bytes hands out at most `n` of them, which are
-- the oldest ones that the buffer holds, and keeps the others in order.
pub read_lem :
    (n : ℕ) {b : DoubleBuffer}
    → IsValid b
    → let (out, b') = read n b in (out ++ contents b' ≡ contents b) × (length out ≤ n)
unfolding read
read_lem n {b} v =
    let v' = swap_halves-IsValid v in
    (contents-read_half n v' ∙ contents-swap_halves v, omega (arith, length-read_half n v'))

-- `read` of a valid buffer into a span that is not empty returns no byte only if the buffer
-- holds none.
pub read_progress :
    (n : ℕ) {b : DoubleBuffer} → IsValid b → 0 < n → (read n b).0 ≡ [] → contents b ≡ []
unfolding read
read_progress n {b} v pos h =
    eq_nil_of_length (contents b)
      (unread_of_swapped v (omega (arith, length-read_half n (swap_halves-IsValid v), ap length h)))

-- `write` of a source that is not empty to a valid buffer takes as many bytes as the write half
-- has room for, appends exactly these to what the buffer holds, and takes none exactly if
-- `full` holds.
pub write_lem :
    (source : List ℕ) {b : DoubleBuffer}
    → IsValid b
    → 0 < length source
    → let (n, b') = write source b in
      (contents b' ≡ contents b ++ take n source)
      × (n ≡ min (length source) (b.size - b.write_buffer.size))
      × ((n == 0) ≡ full b)
unfolding write full
write_lem source {b} v h = (contents-write source v, omega arith, ground arith)

-- A client's calls: `get n` reads into a span of `n` bytes, `put` writes a span.
pub data Op : Type 0 where
  get : ℕ → Op
  put : List ℕ → Op

-- The bytes that the calls read, the bytes that they wrote, and the buffer that they leave.
unfoldable pub run : List Op → DoubleBuffer → List ℕ × List ℕ × DoubleBuffer
run [] b = ([], [], b)
run (get n ∷ ops) b =
    let (out, b') = read n b in let (outs, ins, b'') = run ops b' in (out ++ outs, ins, b'')
run (put source ∷ ops) b =
    let (n, b') = write source b in
    let (outs, ins, b'') = run ops b' in (outs, take n source ++ ins, b'')

-- Over any sequence of reads and writes of a valid buffer, the bytes read and then the bytes
-- still held are the bytes held at first and then the bytes accepted, so nothing is lost,
-- doubled or reordered; and the buffer stays valid.
pub run_fifo :
    (ops : List Op) {b : DoubleBuffer}
    → IsValid b
    → let (outs, ins, b') = run ops b in (outs ++ contents b' ≡ contents b ++ ins) × IsValid b'
unfolding run
run_fifo [] {b} v = (sym (append-nil (contents b)), v)
run_fifo (get n ∷ ops) {b} v =
    let rest = run_fifo ops (read-IsValid n v) in
    ground (
      arith,
      rest.0,
      rest.1,
      read_lem n v,
      append_assoc (read n b).0 (run ops (read n b).1).0 (contents (run ops (read n b).1).2),
      append_assoc (read n b).0 (contents (read n b).1) (run ops (read n b).1).1,
    )
run_fifo (put source ∷ ops) {b} v =
    let rest = run_fifo ops (write-IsValid source v) in
    ground (
      arith,
      rest.0,
      rest.1,
      contents-write source v,
      append_assoc (contents b) (take (write source b).0 source) (run ops (write source b).1).1,
    )
