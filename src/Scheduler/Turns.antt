-- ===== src/Scheduler/Turns.antt =====
-- Switches in a row on one processor, between which the states of the threads change.
use mathlib.Core.Option
use umbongo.Base.{
  ℕ, suc, ◌≤◌, ◌<◌, ◌≡◌, refl, List, [], ◌∷◌, Bool, true, false, Option, some, none, inl, inr, ◌&&◌,
  ◌||◌, ◌==◌, Bool-cases, if◌then◌else◌, length, arith,
}
use umbongo.Base.Outcome.{Outcome, done, ◌>>=◌}
use umbongo.Scheduler.{slot_count, ThreadState, Scheduler, is_alive, is_blocked, switch_next}
use umbongo.Scheduler.Fair.{Waiting, its_turn, closer, switch_next-Closer}

-- What holds at a switch: the states of the threads, and what their blockers answer.
pub record Moment : Type 0 where
  pub states : ℕ → ThreadState
  pub should_unblock : ℕ → Bool

abbrev pub at_moment : Moment → Scheduler → Scheduler
at_moment m s = record s { threads = λ x. record (s.threads x) { state = m.states x } }

-- The switches that pass before the one to a thread; none if there is no such switch. Each thread
-- that is switched to is the current one at the next.
unfoldable pub switches_until : ℕ → ℕ → List Moment → ℕ → Scheduler → Outcome (Option ℕ)
switches_until t fuel [] current s = done none
switches_until t fuel (m ∷ ms) current s =
    switch_next m.should_unblock fuel current (at_moment m s) >>= λ r.
    if r.1 == t
    then done (some 0)
    else (switches_until t fuel ms r.1 r.0 >>= λ n. done (Option.map suc n))

abbrev pub AlwaysRuns : ℕ → List Moment → Type 0
AlwaysRuns t [] = Unit
AlwaysRuns t (m ∷ ms) =
    ((is_alive (m.states t) || (is_blocked (m.states t) && m.should_unblock t)) ≡ true)
    × AlwaysRuns t ms

at_moment-Waiting :
    (t k : ℕ) (m : Moment) (s : Scheduler) → Waiting t k s → Waiting t k (at_moment m s)
at_moment-Waiting t k m s w = record {
  b = w.b;
  i = w.i;
  pre = w.pre;
  post = w.post;
  queues = record {
    blocked_holds = w.queues.blocked_holds;
    idle_holds = w.queues.idle_holds;
    normal_holds = w.queues.normal_holds;
  };
  size = w.size;
  ahead = w.ahead;
}

eq_other_self : (x t : ℕ) → (x == t) ≡ false → x ≡ t → ⊥
eq_other_self x t e f = ground arith

-- A normal thread in its queue with at most `k` others before it, while the queues have a slot to
-- spare for the current thread: if it can run at each of more than `k` switches, one of the first
-- `k + 1` is to it, whatever the states of the others are. Each switch ends within 1025 rounds of a loop.
pub switches_until_lem :
    (t k fuel : ℕ) (ms : List Moment) (current : ℕ) (s : Scheduler)
    → Waiting t k s
    → AlwaysRuns t ms
    → k < length ms
    → slot_count < fuel
    → (n : ℕ) × (switches_until t fuel ms current s ≡ done (some n)) × (n ≤ k)
unfolding switches_until
switches_until_lem t k fuel [] current s v runs more enough = absurd (omega arith)
switches_until_lem t k fuel (m ∷ ms) current s v runs more enough =
    let (s', x, switched, near) =
      switch_next-Closer m.should_unblock fuel current t k enough (at_moment m s)
        (at_moment-Waiting t k m s v) runs.0 in
    elim (Bool-cases (x == t)) [
      | inl e ↦ (0, rw switched (rw e refl), omega arith)
      | inr e ↦ elim near [
        | its_turn same ↦ absurd (eq_other_self x t e same)
        | closer k' f w ↦
            let (n, later, less) =
              switches_until_lem t k' fuel ms x s' w runs.1 (omega arith) enough in
            (suc n, rw switched (rw e (rw later refl)), omega arith)
      ]
    ]
