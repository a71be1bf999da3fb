-- ===== src/DoubleBuffer/Tests.antt =====
-- Runs of the double buffer of kernel/ipc/double_buffer.cc, and its theorems at a concrete buffer.
use umbongo.Base.{◌≡◌, refl, List, [], ◌∷◌, ◌++◌, arith, copy_in, copy_out}
use umbongo.DoubleBuffer.{DoubleBuffer, create, swap_halves, read_half, read, write}
use umbongo.DoubleBuffer.Inv.{IsValid}
use umbongo.DoubleBuffer.Refine.{contents, Op, get, put, run, run_fifo}

-- Four bytes to a half: 1 and 2 have been read and 3 not, and 4 waits in the write half.
abbrev used : DoubleBuffer
used = record {
  bytes = 4 ∷ 0 ∷ 0 ∷ 0 ∷ 1 ∷ 2 ∷ 3 ∷ 0 ∷ [];
  size = 4;
  read_buffer = record { start = 4; size = 3 };
  write_buffer = record { start = 0; size = 1 };
  read_position = 2;
}

used-IsValid : IsValid used
used-IsValid = omega arith

fresh :
    (run
      (put (1 ∷ 2 ∷ 3 ∷ 4 ∷ 5 ∷ []) ∷ get 2 ∷ put (6 ∷ []) ∷ get 9 ∷ get 9 ∷ [])
      (create 4 (copy_in (0 ∷ 0 ∷ 0 ∷ 0 ∷ 0 ∷ 0 ∷ 0 ∷ 0 ∷ []) 0 []))).0
    ≡ 1 ∷ 2 ∷ 3 ∷ 4 ∷ 6 ∷ []
unfolding run create read write swap_halves read_half copy_in copy_out
fresh = refl

contents_used : contents used ≡ 3 ∷ 4 ∷ []
unfolding contents copy_out
contents_used = refl

abbrev script : List Op
script = get 5 ∷ put (7 ∷ 8 ∷ 9 ∷ 10 ∷ 11 ∷ []) ∷ get 1 ∷ []

run_fifo_example :
    let (outs, ins, b') = run script used in
    (outs ++ contents b' ≡ contents used ++ ins) × IsValid b'
run_fifo_example = run_fifo script used-IsValid

abbrev drained : DoubleBuffer
drained = record used { write_buffer = record { start = 0; size = 0 }; read_position = 3 }

drained-IsValid : IsValid drained
drained-IsValid = omega arith
