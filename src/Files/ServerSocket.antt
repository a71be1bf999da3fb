-- ===== src/Files/ServerSocket.antt =====
-- kernel/ipc/server_socket.{hh,cc}: the connections that wait to be accepted. `A` is a socket. A read
-- or a write of a server socket is an error and left out.
use umbongo.Base.{
  ℕ, ◌+◌, ◌≤◌, ◌≡◌, refl, sym, ap, ◌⊎◌, ◌∙◌, List, [], ◌∷◌, ◌++◌, append_assoc, append-nil, Option,
  none, some, Bool, ◌==◌, leb, arith, if◌then◌else◌, length, length-append, add_u32, Bool-cases,
  inl, inr, ◌<◌, ◌^◌, max,
}
use umbongo.Files.{SysResult, ok, error}

pub record ServerSocket {ℓ} (A : Type ℓ) : Type ℓ where
  pub connection_queue : List A
  pub capacity : ℕ

-- What clients and the server do: `arrive` is a connection, `serve` an accept that first asks whether
-- it would block.
pub data Op {ℓ} (A : Type ℓ) : Type ℓ where
  arrive : A → Op A
  serve : Op A

-- The number of `Error::Busy` is a parameter.
module _ {ℓ} {A : Type ℓ} (busy : ℕ) where
  -- The constructor: room for as many as the limit.
  abbrev pub server_socket : ℕ → ServerSocket A
  server_socket backlog_limit = record { connection_queue = []; capacity = backlog_limit }

  abbrev pub accept_would_block : ServerSocket A → Bool
  accept_would_block s = length s.connection_queue == 0

  -- `take(0)` of an empty queue fails an assertion.
  abbrev take_first : List A → ℕ → Option (A × ServerSocket A)
  take_first [] capacity = none
  take_first (a ∷ rest) capacity = some (a, record { connection_queue = rest; capacity = capacity })

  abbrev pub accept : ServerSocket A → Option (A × ServerSocket A)
  accept s = take_first s.connection_queue s.capacity

  abbrev pub queue_connection_from : A → ServerSocket A → SysResult (Unit {0}) × ServerSocket A
  queue_connection_from a s =
      if leb s.capacity (add_u32 (length s.connection_queue) 1)
      then (error busy, s)
      else (ok tt, record s { connection_queue = s.connection_queue ++ a ∷ [] })

  abbrev queued : A → SysResult (Unit {0}) → List A
  queued a (ok u) = a ∷ []
  queued a (error e) = []

  abbrev served : Option (A × ServerSocket A) → ServerSocket A → List A × ServerSocket A
  served none s = ([], s)
  served (some r) s = (r.0 ∷ [], r.1)

  -- The connections that were accepted, those that were queued, and the state in the end.
  pub run : List (Op A) → ServerSocket A → List A × List A × ServerSocket A
  run [] s = ([], [], s)
  run (arrive a ∷ ops) s =
      let r = queue_connection_from a s in
      let rest = run ops r.1 in (rest.0, queued a r.0 ++ rest.1, rest.2)
  run (serve ∷ ops) s =
      let r = served (accept s) s in let rest = run ops r.1 in (r.0 ++ rest.0, rest.1, rest.2)

  queue-cases : (q : List A) → (q ≡ []) ⊎ ((a : A) × (rest : List A) × (q ≡ a ∷ rest))
  queue-cases [] = inl refl
  queue-cases (a ∷ rest) = inr (a, rest, refl)

  -- Connections are accepted in the order in which they were queued, none is lost and none is
  -- accepted twice; and fewer of them wait than the limit, if that is not zero. The limit is
  -- below 2^32, and fewer wait at first.
  pub run-fifo :
      (ops : List (Op A)) (s : ServerSocket A)
      → s.capacity < 2 ^ 32
      → length s.connection_queue + 1 ≤ max 1 s.capacity
      → ((run ops s).0 ++ (run ops s).2.connection_queue ≡ s.connection_queue ++ (run ops s).1)
        × (length (run ops s).2.connection_queue + 1 ≤ max 1 s.capacity)
        × ((run ops s).2.capacity ≡ s.capacity)
  unfolding run
  run-fifo [] s small h = (sym (append-nil s.connection_queue), h, refl)
  run-fifo (arrive a ∷ ops) s small h =
      elim (Bool-cases (leb s.capacity (add_u32 (length s.connection_queue) 1))) [
        | inl full ↦ rw full (run-fifo ops s small h)
        | inr room ↦
            let more = length-append s.connection_queue (a ∷ []) in
            let rest =
              run-fifo ops (record s { connection_queue = s.connection_queue ++ a ∷ [] }) small
                (ground (arith, room, more, small, h)) in
            rw room (rest.0 ∙ append_assoc s.connection_queue (a ∷ []) _, rest.1, rest.2)
      ]
  run-fifo (serve ∷ ops) s small h = elim (queue-cases s.connection_queue) [
    | inl empty ↦
        let rest = run-fifo ops (record s { connection_queue = [] }) small (omega (arith, h)) in
        rw empty rest
    | inr (a, rest, e) ↦
        let after =
          run-fifo ops (record s { connection_queue = rest }) small
            (omega (arith, h, ap length e)) in
        rw e (ap (λ t. a ∷ t) after.0, after.1, after.2)
  ]
