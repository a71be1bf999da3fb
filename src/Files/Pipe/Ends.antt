-- ===== src/Files/Pipe/Ends.antt =====
-- The states of a pipe whose ends are opened and closed through file handles.
use umbongo.Base.{
  ℕ, ◌+◌, ◌-◌, ◌^◌, ◌<◌, ◌≡◌, ◌≢◌, ◌↔◌, refl, subst, List, [], some, none, true, ltb, arith, length,
  lt→ltb, add_u32,
}
use umbongo.DoubleBuffer.{read, write}
use umbongo.DoubleBuffer.Inv.{IsValid, create-IsValid, read-IsValid, write-IsValid}
use umbongo.DoubleBuffer.Refine.{contents, empty_iff}
use umbongo.Files.{
  SysResult, AttachDirection, read_direction, write_direction, read_write_direction,
}
use umbongo.Files.Pipe.{Pipe, pipe, attach, detach, pipe_file}
use umbongo.Files.Handle.{
  FileHandle, open_handle, close_handle, read_handle, write_handle, read_would_block,
}

-- A pipe that is reached with so many handles open for reading and so many for writing.
pub data Reached : ℕ → ℕ → Pipe → Type 0 where
  created : (memory : List ℕ) → length memory ≡ 0x20000 → Reached 0 0 (pipe memory)
  reader_opened :
      {r w : ℕ} {p : Pipe} (h : FileHandle) {q : Pipe}
      → Reached r w p
      → r + 1 < 2 ^ 32
      → open_handle pipe_file read_direction p ≡ some (h, q)
      → Reached (r + 1) w q
  writer_opened :
      {r w : ℕ} {p : Pipe} (h : FileHandle) {q : Pipe}
      → Reached r w p
      → w + 1 < 2 ^ 32
      → open_handle pipe_file write_direction p ≡ some (h, q)
      → Reached r (w + 1) q
  reader_closed :
      {r w : ℕ} {p : Pipe} (offset : ℕ) {q : Pipe}
      → Reached (r + 1) w p
      → close_handle pipe_file (record { direction = read_direction; offset = offset }) p ≡ some q
      → Reached r w q
  writer_closed :
      {r w : ℕ} {p : Pipe} (offset : ℕ) {q : Pipe}
      → Reached r (w + 1) p
      → close_handle pipe_file (record { direction = write_direction; offset = offset }) p ≡ some q
      → Reached r w q
  bytes_read :
      {r w : ℕ} {p : Pipe} (n : ℕ) (h h' : FileHandle) (result : SysResult (List ℕ)) {q : Pipe}
      → Reached r w p
      → read_handle pipe_file n h p ≡ some (result, h', q)
      → Reached r w q
  bytes_written :
      {r w : ℕ} {p : Pipe} (source : List ℕ) (h h' : FileHandle) (result : SysResult ℕ) {q : Pipe}
      → Reached r w p
      → write_handle pipe_file source h p ≡ some (result, h', q)
      → Reached r w q

record Counted (r w : ℕ) (p : Pipe) : Type 0 where
  readers : p.reader_count ≡ r
  writers : p.writer_count ≡ w
  buffer : IsValid p.buffer

counted : {r w : ℕ} {p : Pipe} → Reached r w p → Counted r w p
unfolding pipe_file attach detach
counted (created memory size) = record {
  readers = refl;
  writers = refl;
  buffer = create-IsValid 0x10000 memory (omega arith) (omega arith);
}
counted {p = q} (reader_opened {r} {w} {p} h before small step) =
    let c = counted before in
    let next = record p { reader_count = add_u32 p.reader_count 1 } in
    let same : next ≡ q = cc in
    subst (Counted (r + 1) w) same
      (record { readers = omega (arith, c.readers); writers = c.writers; buffer = c.buffer })
counted {p = q} (writer_opened {r} {w} {p} h before small step) =
    let c = counted before in
    let next = record p { writer_count = add_u32 p.writer_count 1 } in
    let same : next ≡ q = cc in
    subst (Counted r (w + 1)) same
      (record { readers = c.readers; writers = omega (arith, c.writers); buffer = c.buffer })
counted {p = q} (reader_closed {r} {w} {p} offset before step) =
    let c = counted before in
    let next = record p { reader_count = p.reader_count - 1 } in
    let positive : ltb 0 p.reader_count ≡ true =
      lt→ltb 0 p.reader_count (omega (arith, c.readers)) in
    let step' = (rw positive at step) in
    let same : next ≡ q = cc in
    subst (Counted r w) same
      (record { readers = omega (arith, c.readers); writers = c.writers; buffer = c.buffer })
counted {p = q} (writer_closed {r} {w} {p} offset before step) =
    let c = counted before in
    let next = record p { writer_count = p.writer_count - 1 } in
    let positive : ltb 0 p.writer_count ≡ true =
      lt→ltb 0 p.writer_count (omega (arith, c.writers)) in
    let step' = (rw positive at step) in
    let same : next ≡ q = cc in
    subst (Counted r w) same
      (record { readers = c.readers; writers = omega (arith, c.writers); buffer = c.buffer })
counted {p = q} (bytes_read {r} {w} {p} n h h' result before step) =
    let c = counted before in
    let next = record p { buffer = (read n p.buffer).1 } in
    let same : next ≡ q = cc in
    subst (Counted r w) same
      (record { readers = c.readers; writers = c.writers; buffer = read-IsValid n c.buffer })
counted {p = q} (bytes_written {r} {w} {p} source h h' result before step) =
    let c = counted before in
    let next = record p { buffer = (write source p.buffer).1 } in
    let same : next ≡ q = cc in
    subst (Counted r w) same
      (record { readers = c.readers; writers = c.writers; buffer = write-IsValid source c.buffer })

-- In every state that a pipe reaches from its creation, its counts are the numbers of handles that
-- are open for reading and for writing, and a read would block exactly while a handle is open for
-- writing and no byte waits. No end is ever open by 2^32 handles or more.
pub read_would_block_iff :
    {r w : ℕ} {p : Pipe} (h : FileHandle)
    → Reached r w p
    → (p.reader_count ≡ r)
      × (p.writer_count ≡ w)
      × ((read_would_block pipe_file h p ≡ true) ↔ ((0 < w) × (contents p.buffer ≡ [])))
unfolding pipe_file
read_would_block_iff {r} {w} {p} h reached =
    let c = counted reached in
    let holds = empty_iff c.buffer in
    (
      c.readers,
      c.writers,
      (
        (λ blocks. (ground (arith, blocks, c.writers), holds.0 (ground (arith, blocks)))),
        (λ idle. ground (arith, c.writers, holds.1 idle.1, idle.0)),
      ),
    )

-- How many of the open handles are of a direction.
abbrev pub open_count : AttachDirection → ℕ → ℕ → ℕ
open_count read_direction r w = r
open_count write_direction r w = w
open_count read_write_direction r w = 0

-- In every state that a pipe reaches from its creation, a handle of a direction that has one
-- open can be closed: no assertion fails.
pub close_handle-ne-none :
    {r w : ℕ} {p : Pipe} (h : FileHandle)
    → Reached r w p
    → 0 < open_count h.direction r w
    → close_handle pipe_file h p ≢ none
unfolding pipe_file detach
close_handle-ne-none {r} {w} {p} h reached some_open = closes h.direction some_open
  where
    closes : (d : AttachDirection) → 0 < open_count d r w → detach d p ≢ none
    closes read_direction positive stopped =
        ground (arith, positive, (counted reached).readers, stopped)
    closes write_direction positive stopped =
        ground (arith, positive, (counted reached).writers, stopped)
    closes read_write_direction positive stopped = absurd (omega arith)
