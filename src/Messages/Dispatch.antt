-- ===== src/Messages/Dispatch.antt =====
-- libs/ipc/client.cc: the messages that a client's object reads are handed to its handler one after
-- the other. A view of memory behind the read buffer has no bytes.
use umbongo.Base.{
  ℕ, zero, suc, List, Option, none, some, Bool, true, false, if◌then◌else◌, ltb, ◌==◌, take, drop,
  add_size,
}
use umbongo.Base.Outcome.{Outcome, done, panic, no_fuel, ◌>>=◌}
use umbongo.Messages.{MessageDecoder, decoder}

-- `m_on_message`, which may panic: whether it is content, the decoder and what else it changes.
abbrev pub Handler {ℓ} : Type ℓ → Type ℓ
Handler S = MessageDecoder → S → Option (Bool × MessageDecoder × S)

abbrev pub outcome {ℓ} : {A : Type ℓ} → Option A → Outcome A
outcome none = panic
outcome (some a) = done a

-- The loop over the `bytes_read` bytes of `buffer`: whether the client stays connected.
unfoldable pub dispatch {ℓ} : {S : Type ℓ} → ℕ → Handler S → List ℕ → ℕ → ℕ → S → Outcome (Bool × S)
dispatch zero handler buffer bytes_read position s = no_fuel
dispatch (suc fuel) handler buffer bytes_read position s =
    let rest = dispatch fuel handler buffer bytes_read in
    if ltb position bytes_read
    then (outcome (handler (decoder (take bytes_read (drop position buffer))) s) >>= λ r.
        if r.0
        then (if r.1.bytes_decoded == 0
            then done (true, r.2)
            else rest (add_size position r.1.bytes_decoded) r.2)
        else done (false, r.2))
    else done (true, s)

-- `set_on_read_ready`'s function, with the bytes that the kernel gave.
unfoldable pub on_read_ready {ℓ} :
    {S : Type ℓ} → ℕ → Handler S → List ℕ → ℕ → S → Outcome (Bool × S)
on_read_ready fuel handler buffer bytes_read s =
    if bytes_read == 0 then done (false, s) else dispatch fuel handler buffer bytes_read 0 s
