-- ===== src/Scheduler.antt =====
-- kernel/proc/scheduler.cc with the state of kernel/proc/thread.{hh,cc} that it reads, on one
-- processor. A thread is a pointer, and the threads it points at are a function. `panic` is a check
-- that fails, or a wait for another processor that never comes.
pub mod Queue
pub mod Drain
pub mod Scan
pub mod Pick
pub mod Fair
pub mod Turns
mod Tests
use umbongo.Base.{
  ℕ, zero, suc, ◌+◌, ◌%◌, ◌^◌, List, [], ◌∷◌, ◌++◌, Bool, true, false, not, ◌&&◌, Option, none,
  some, ◌==◌, ltb, if◌then◌else◌, get_or, set, replicate, add_u32, sub_u32,
}
use umbongo.Base.Outcome.{Outcome, done, panic, no_fuel, ◌>>=◌}

pub data ThreadPriority : Type 0 where
  idle normal : ThreadPriority

pub data ThreadState : Type 0 where
  alive blocked dead : ThreadState

pub record Thread : Type 0 where
  pub state : ThreadState
  pub priority : ThreadPriority
  pub pid : ℕ

-- `static_cast<uint32_t>(priority)`
abbrev pub priority_number : ThreadPriority → ℕ
priority_number idle = 0
priority_number normal = 1

abbrev pub slot_count : ℕ
slot_count = 1024

pub record PriorityQueue : Type 0 where
  pub slots : List (Option ℕ)
  pub head : ℕ
  pub tail : ℕ

abbrev pub new_queue : PriorityQueue
new_queue = record { slots = replicate slot_count none; head = 0; tail = 0 }

-- The slot is waited for until it is free.
unfoldable pub enqueue : ℕ → PriorityQueue → Outcome PriorityQueue
enqueue thread q =
    let slot = q.head % slot_count in
    elim (get_or q.slots slot none) [
      | some other ↦ panic
      | none ↦ done (record q { slots = set q.slots slot (some thread); head = add_u32 q.head 1 })
    ]

-- `static_cast<int32_t>(distance) <= 0`
abbrev pub not_positive : ℕ → Bool
not_positive distance = not (ltb 0 distance && ltb distance (2 ^ 31))

unfoldable pub dequeue : PriorityQueue → Outcome (PriorityQueue × Option ℕ)
dequeue q =
    let slot = q.tail % slot_count in
    if not_positive (sub_u32 q.head q.tail)
    then done (q, none)
    else elim (get_or q.slots slot none) [
      | none ↦ panic
      | some thread ↦
          done (record q { slots = set q.slots slot none; tail = add_u32 q.tail 1 }, some thread)
    ]

-- `list` goes from `s_base_thread` on by the links to the next thread.
pub record Scheduler : Type 0 where
  pub list : List ℕ
  pub threads : ℕ → Thread
  pub blocked_queue : PriorityQueue
  pub idle_queue : PriorityQueue
  pub normal_queue : PriorityQueue

-- `s_queues[priority]->enqueue(thread)`
unfoldable pub requeue : ℕ → Scheduler → Outcome Scheduler
requeue thread s = elim ((s.threads thread).priority) [
  | idle ↦ enqueue thread s.idle_queue >>= λ q. done (record s { idle_queue = q })
  | normal ↦ enqueue thread s.normal_queue >>= λ q. done (record s { normal_queue = q })
]

-- The first loop of `pick_next`.
unfoldable pub drain_blocked : ℕ → Scheduler → Outcome Scheduler
drain_blocked zero s = no_fuel
drain_blocked (suc fuel) s = dequeue s.blocked_queue >>= λ r. elim (r.1) [
  | none ↦ done (record s { blocked_queue = r.0 })
  | some thread ↦ requeue thread (record s { blocked_queue = r.0 }) >>= drain_blocked fuel
]

abbrev pub update : (ℕ → Thread) → ℕ → Thread → ℕ → Thread
update threads thread t other = if other == thread then t else threads other

abbrev pub is_blocked : ThreadState → Bool
is_blocked blocked = true
is_blocked _ = false

abbrev pub is_alive : ThreadState → Bool
is_alive alive = true
is_alive _ = false

abbrev pub is_dead : ThreadState → Bool
is_dead dead = true
is_dead _ = false

-- What the loop over a queue leaves, and the thread that it returns.
pub record Pass : Type 0 where
  pub threads : ℕ → Thread
  pub queue : PriorityQueue
  pub blocked_queue : PriorityQueue
  pub thread : Option ℕ

abbrev pub pass : (ℕ → Thread) → PriorityQueue → PriorityQueue → Option ℕ → Pass
pass threads queue blocked_queue thread = record {
  threads = threads;
  queue = queue;
  blocked_queue = blocked_queue;
  thread = thread;
}

-- The unlinking of `Thread::~Thread`.
unfoldable pub remove_thread : ℕ → List ℕ → List ℕ
remove_thread thread [] = []
remove_thread thread (other ∷ list) =
    if other == thread then list else other ∷ remove_thread thread list

-- The last thing that `switch_next` does with the thread that it leaves.
abbrev pub delete_dead : ℕ → Scheduler → Scheduler
delete_dead thread s =
    if is_dead ((s.threads thread).state)
    then record s { list = remove_thread thread s.list }
    else s

module _ (should_unblock : ℕ → Bool) where
  -- `Thread::try_unblock`. What the thread's blocker answers is a parameter.
  unfoldable pub try_unblock : ℕ → (ℕ → Thread) → ℕ → Thread
  try_unblock thread threads =
      if is_blocked ((threads thread).state) && should_unblock thread
      then update threads thread (record (threads thread) { state = alive })
      else threads

  -- The inner loop of `pick_next` over one queue.
  unfoldable pub pick_from : ℕ → PriorityQueue → PriorityQueue → (ℕ → Thread) → Outcome Pass
  unfolding try_unblock
  pick_from zero queue blocked_queue threads = no_fuel
  pick_from (suc fuel) queue blocked_queue threads = dequeue queue >>= λ r. elim (r.1) [
    | none ↦ done (pass threads r.0 blocked_queue none)
    | some thread ↦
        let threads = try_unblock thread threads in
        let rest = λ (q : PriorityQueue). pick_from fuel r.0 q threads in
        if is_alive ((threads thread).state)
        then done (pass threads r.0 blocked_queue (some thread))
        else enqueue thread blocked_queue >>= rest
  ]

  -- The loop over the queues, of which the one of normal threads comes first.
  unfoldable pub pick_next : ℕ → Scheduler → Outcome (Scheduler × ℕ)
  pick_next fuel s = do
    s ← drain_blocked fuel s
    p ← pick_from fuel s.normal_queue s.blocked_queue s.threads
    let s = record s {
      threads = p.threads;
      normal_queue = p.queue;
      blocked_queue = p.blocked_queue;
    }
    elim (p.thread) [
      | some thread ↦ done (s, thread)
      | none ↦ (do
        p ← pick_from fuel s.idle_queue s.blocked_queue s.threads
        let s = record s {
          threads = p.threads;
          idle_queue = p.queue;
          blocked_queue = p.blocked_queue;
        }
        elim (p.thread) [ some thread ↦ done (s, thread) | none ↦ panic ])
    ]

  unfoldable pub switch_next : ℕ → ℕ → Scheduler → Outcome (Scheduler × ℕ)
  switch_next fuel current s = do
    s ← if is_dead ((s.threads current).state) then done s else requeue current s
    (s, next) ← pick_next fuel s
    done (delete_dead current s, next)

abbrev pub time_slice_for : Thread → ℕ
time_slice_for t = priority_number t.priority + 1

-- `Thread::kill` and what `Thread::block` does before it yields.
unfoldable pub kill : ℕ → Scheduler → Scheduler
kill thread s = record s {
  threads = update s.threads thread (record (s.threads thread) { state = dead });
}

unfoldable pub block : ℕ → Scheduler → Outcome Scheduler
block thread s =
    if is_blocked ((s.threads thread).state)
    then panic
    else done (record s {
      threads = update s.threads thread (record (s.threads thread) { state = blocked });
    })

unfoldable pub insert_thread : ℕ → Scheduler → Outcome Scheduler
insert_thread thread s =
    let listed = record s { list = s.list ++ thread ∷ [] } in
    if priority_number ((s.threads thread).priority) == 0
    then done listed
    else requeue thread listed

-- The loop of `Process::from_pid`.
unfoldable pub from_pid : ℕ → (ℕ → Thread) → List ℕ → Option ℕ
from_pid pid threads [] = none
from_pid pid threads (thread ∷ list) =
    if (threads thread).pid == pid then some pid else from_pid pid threads list
