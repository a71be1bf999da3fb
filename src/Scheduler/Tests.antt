-- ===== src/Scheduler/Tests.antt =====
-- Tests and instances for the scheduler.
use umbongo.Base.{ℕ, ◌≤◌, ◌≡◌, refl, [], ◌∷◌, false, some, ◌==◌, if◌then◌else◌, arith}
use umbongo.Base.Outcome.{done, ◌>>=◌}
use umbongo.Scheduler.{
  idle, normal, alive, blocked, Thread, PriorityQueue, new_queue, enqueue, dequeue, Scheduler,
  try_unblock, pick_next, switch_next, requeue, drain_blocked, pick_from,
}
use umbongo.Scheduler.Queue.{Holds, enqueue_lem, new_queue-Holds}
use umbongo.Scheduler.Drain.{Queues}
use umbongo.Scheduler.Pick.{Picked, pick_next_lem}
use umbongo.Scheduler.Fair.{Waiting}
use umbongo.Scheduler.Turns.{Moment, switches_until, switches_until_lem}

-- Threads 1 and 2 are normal, and 1 is blocked. Thread 0 is idle.
abbrev thread : ℕ → Thread
thread x = record {
  state = if x == 1 then blocked else alive;
  priority = if x == 0 then idle else normal;
  pid = x;
}

-- The queue of the normal threads, with 1 before 2.
abbrev first_put : (q : PriorityQueue) × (enqueue 1 new_queue ≡ done q) × Holds q (1 ∷ [])
first_put = enqueue_lem new_queue [] new_queue-Holds 1 (omega arith)

abbrev both_put : (q : PriorityQueue) × (enqueue 2 first_put.0 ≡ done q) × Holds q (1 ∷ 2 ∷ [])
both_put = enqueue_lem first_put.0 (1 ∷ []) first_put.2 2 (omega arith)

abbrev scheduler : Scheduler
scheduler = record {
  list = 0 ∷ 1 ∷ 2 ∷ [];
  threads = thread;
  blocked_queue = new_queue;
  idle_queue = new_queue;
  normal_queue = both_put.0;
}

scheduler-Queues : Queues scheduler [] [] (1 ∷ 2 ∷ [])
scheduler-Queues = record {
  blocked_holds = new_queue-Holds;
  idle_holds = new_queue-Holds;
  normal_holds = both_put.2;
}

pick_next_lem_example :
    Picked (λ x. false) scheduler [] [] (1 ∷ 2 ∷ []) (pick_next (λ x. false) 1025 scheduler)
pick_next_lem_example =
    pick_next_lem (λ x. false) 1025 scheduler [] [] (1 ∷ 2 ∷ []) scheduler-Queues (omega arith)
      (omega arith)

abbrev still : Moment
still = record { states = λ x. (thread x).state; should_unblock = λ x. false }

abbrev second_waits : Waiting 2 1 scheduler
second_waits = record {
  b = [];
  i = [];
  pre = 1 ∷ [];
  post = [];
  queues = scheduler-Queues;
  size = omega arith;
  ahead = omega arith;
}

switches_until_lem_example :
    (n : ℕ) × (switches_until 2 1025 (still ∷ still ∷ []) 0 scheduler ≡ done (some n)) × (n ≤ 1)
switches_until_lem_example =
    switches_until_lem 2 1 1025 (still ∷ still ∷ []) 0 scheduler second_waits (refl, (refl, tt))
      (omega arith) (omega arith)

-- The same queue as the code makes it: the blocked thread is passed over.
dequeue_test :
    (enqueue 1 new_queue >>= λ q. enqueue 2 q >>= λ q. dequeue q >>= λ r. done (r.1))
    ≡ done (some 1)
unfolding enqueue dequeue
dequeue_test = refl

switch_test :
    (enqueue 1 new_queue >>= λ q. enqueue 2 q >>= λ q.
    switch_next (λ x. false) 3 0 (record scheduler { normal_queue = q }) >>= λ r. done (r.1))
    ≡ done 2
unfolding enqueue dequeue switch_next pick_next drain_blocked pick_from requeue try_unblock
switch_test = refl
