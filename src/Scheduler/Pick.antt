-- ===== src/Scheduler/Pick.antt =====
-- `pick_next` and `switch_next`: which thread comes next, and where the others are then.
use umbongo.Base.{
  ℕ, ◌+◌, ◌≤◌, ◌<◌, ◌≡◌, refl, ap, subst, ◌∙◌, List, [], ◌∷◌, ◌++◌, Bool, true, length,
  length-append, arith,
}
use umbongo.Base.Outcome.{Outcome, done, panic}
use umbongo.Scheduler.{slot_count, Scheduler, try_unblock, pick_next}
use umbongo.Scheduler.Queue.{Holds}
use umbongo.Scheduler.Drain.{Queues, normals, idles, length-normals, drain_blocked_lem}
use umbongo.Scheduler.Scan.{
  can_run, AllWait, none_runs, runs, first_lem, pick_from-runs, pick_from-none,
}

module _ (should_unblock : ℕ → Bool) where
  -- What follows from the lists of threads that the blocked, idle and normal queue hold.
  pub data Picked (s : Scheduler) (b i n : List ℕ) : Outcome (Scheduler × ℕ) → Type 0 where
    picked_normal :
        (s' : Scheduler) (pre : List ℕ) (x : ℕ) (post : List ℕ)
        → n ++ normals s.threads b ≡ pre ++ x ∷ post
        → AllWait should_unblock s.threads pre
        → can_run should_unblock s.threads x ≡ true
        → Queues s' pre (i ++ idles s.threads b) post
        → s'.threads ≡ try_unblock should_unblock x s.threads
        → s'.list ≡ s.list
        → Picked s b i n (done (s', x))
    picked_idle :
        (s' : Scheduler) (pre : List ℕ) (x : ℕ) (post : List ℕ)
        → AllWait should_unblock s.threads (n ++ normals s.threads b)
        → i ++ idles s.threads b ≡ pre ++ x ∷ post
        → AllWait should_unblock s.threads pre
        → can_run should_unblock s.threads x ≡ true
        → Queues s' ((n ++ normals s.threads b) ++ pre) post []
        → s'.threads ≡ try_unblock should_unblock x s.threads
        → s'.list ≡ s.list
        → Picked s b i n (done (s', x))
    none_picked :
        AllWait should_unblock s.threads (n ++ normals s.threads b)
        → AllWait should_unblock s.threads (i ++ idles s.threads b)
        → Picked s b i n panic

  -- `pick_next` on queues that hold at most 1024 threads in all. The blocked threads go to the end
  -- of the queues of their priorities first. Then it returns the first normal thread that can run
  -- or, if there is none, the first idle one: those before it in their order are the blocked
  -- threads then, after the normal ones in the second case, and those behind it stay where they
  -- are. If no thread can run it panics. It ends within 1025 rounds of each loop.
  pub pick_next_lem :
      (fuel : ℕ) (s : Scheduler) (b i n : List ℕ)
      → Queues s b i n
      → length b + length i + length n ≤ slot_count
      → slot_count < fuel
      → Picked s b i n (pick_next should_unblock fuel s)
  unfolding pick_next
  pick_next_lem fuel s b i n h room f =
      let (s', drained, moved) =
        drain_blocked_lem fuel s b i n h (omega arith) (omega arith) (omega arith) in
      let count = length-normals s.threads b in
      let ns = n ++ normals s.threads b in
      let is = i ++ idles s.threads b in
      let size_n : length ns ≤ slot_count =
        omega (arith, length-append {0} n (normals s.threads b)) in
      let sizes : length ns + length is ≤ slot_count = omega (
        arith,
        length-append {0} n (normals s.threads b),
        length-append {0} i (idles s.threads b),
      ) in
      elim (first_lem should_unblock s.threads ns) [
        | runs pre x post e w run ↦
            let len = ap length e ∙ length-append {0} pre (x ∷ post) in
            let (q, c, holds, kept, result) =
              pick_from-runs should_unblock s.threads pre x post fuel s'.normal_queue
                s'.blocked_queue [] w run
                (subst (Holds s'.normal_queue) e moved.queues.normal_holds)
                moved.queues.blocked_holds (omega arith) (omega arith) in
            rw drained (
              rw moved.threads (
                rw result (
                  picked_normal
                    (record s' {
                      threads = try_unblock should_unblock x s.threads;
                      normal_queue = q;
                      blocked_queue = c;
                    })
                    pre x post e w run
                    (record {
                      blocked_holds = kept;
                      idle_holds = moved.queues.idle_holds;
                      normal_holds = holds;
                    })
                    refl moved.list)))
        | none_runs w ↦
            let (q, c, holds, kept, result) =
              pick_from-none should_unblock s.threads ns fuel s'.normal_queue s'.blocked_queue [] w
                moved.queues.normal_holds moved.queues.blocked_holds (omega arith) (omega arith) in
            elim (first_lem should_unblock s.threads is) [
              | runs pre x post e v run ↦
                  let len = ap length e ∙ length-append {0} pre (x ∷ post) in
                  let (r, d, holds', kept', result') =
                    pick_from-runs should_unblock s.threads pre x post fuel s'.idle_queue c ns v run
                      (subst (Holds s'.idle_queue) e moved.queues.idle_holds) kept (omega arith)
                      (omega arith) in
                  rw drained (
                    rw moved.threads (
                      rw result (
                        rw result' (
                          picked_idle
                            (record s' {
                              threads = try_unblock should_unblock x s.threads;
                              normal_queue = q;
                              idle_queue = r;
                              blocked_queue = d;
                            })
                            pre x post w e v run
                            (record {
                              blocked_holds = kept';
                              idle_holds = holds';
                              normal_holds = holds;
                            })
                            refl moved.list))))
              | none_runs v ↦
                  let (r, d, holds', kept', result') =
                    pick_from-none should_unblock s.threads is fuel s'.idle_queue c ns v
                      moved.queues.idle_holds kept sizes (omega arith) in
                  rw drained (rw moved.threads (rw result (rw result' (none_picked w v))))
            ]
      ]
