-- ===== src/Scheduler/Drain.antt =====
-- The first loop of `pick_next`, over the blocked queue.
use umbongo.Base.{
  ℕ, zero, suc, ◌+◌, ◌≤◌, ◌<◌, ◌≡◌, refl, sym, ap, subst, ◌∙◌, List, [], ◌∷◌, ◌++◌, Bool, true,
  false, if◌then◌else◌, Bool-cases, inl, inr, length, length-append, append-nil, append_assoc,
  arith,
}
use umbongo.Base.Outcome.{done}
use umbongo.Scheduler.{
  slot_count, ThreadPriority, idle, normal, Thread, Scheduler, requeue, drain_blocked,
}
use umbongo.Scheduler.Queue.{Holds, enqueue_lem, dequeue-nil, dequeue-cons}

-- The three queues hold these threads.
pub record Queues (s : Scheduler) (b i n : List ℕ) : Type 0 where
  pub blocked_holds : Holds s.blocked_queue b
  pub idle_holds : Holds s.idle_queue i
  pub normal_holds : Holds s.normal_queue n

-- The threads of a list that have one of the priorities.
abbrev pub is_normal : ThreadPriority → Bool
is_normal normal = true
is_normal idle = false

unfoldable pub normals : (ℕ → Thread) → List ℕ → List ℕ
normals threads [] = []
normals threads (x ∷ xs) =
    if is_normal ((threads x).priority) then x ∷ normals threads xs else normals threads xs

unfoldable pub idles : (ℕ → Thread) → List ℕ → List ℕ
idles threads [] = []
idles threads (x ∷ xs) =
    if is_normal ((threads x).priority) then idles threads xs else x ∷ idles threads xs

pub length-normals :
    (threads : ℕ → Thread) (xs : List ℕ)
    → length (normals threads xs) + length (idles threads xs) ≡ length xs
unfolding normals idles
length-normals threads [] = omega arith
length-normals threads (x ∷ xs) = ground (arith, length-normals threads xs)

-- Only the queues changed, and hold these threads.
pub record Moved (s s' : Scheduler) (b i n : List ℕ) : Type 0 where
  pub queues : Queues s' b i n
  pub threads : s'.threads ≡ s.threads
  pub list : s'.list ≡ s.list

pub requeue_lem :
    (x : ℕ) (s : Scheduler) (b i n : List ℕ)
    → Queues s b i n
    → length i < slot_count
    → length n < slot_count
    → (s' : Scheduler) × (requeue x s ≡ done s')
      × Moved s s' b (i ++ idles s.threads (x ∷ [])) (n ++ normals s.threads (x ∷ []))
unfolding requeue idles normals
requeue_lem x s b i n h p q = split ((s.threads x).priority) refl
  where
    split :
        (k : ThreadPriority)
        → (s.threads x).priority ≡ k
        → (s' : Scheduler) × (requeue x s ≡ done s')
          × Moved s s' b (i ++ idles s.threads (x ∷ [])) (n ++ normals s.threads (x ∷ []))
    split idle e =
        let (queue, put, holds) = enqueue_lem s.idle_queue i h.idle_holds x p in
        (
          record s { idle_queue = queue },
          rw (e, requeue) (rw put refl),
          rw e (record {
            queues = record {
              blocked_holds = h.blocked_holds;
              idle_holds = holds;
              normal_holds = subst (Holds s.normal_queue) (sym (append-nil n)) h.normal_holds;
            };
            threads = refl;
            list = refl;
          }),
        )
    split normal e =
        let (queue, put, holds) = enqueue_lem s.normal_queue n h.normal_holds x q in
        (
          record s { normal_queue = queue },
          rw (e, requeue) (rw put refl),
          rw e (record {
            queues = record {
              blocked_holds = h.blocked_holds;
              idle_holds = subst (Holds s.idle_queue) (sym (append-nil i)) h.idle_holds;
              normal_holds = holds;
            };
            threads = refl;
            list = refl;
          }),
        )

idles-cons :
    (threads : ℕ → Thread) (x : ℕ) (xs : List ℕ)
    → idles threads (x ∷ xs) ≡ idles threads (x ∷ []) ++ idles threads xs
unfolding idles
idles-cons threads x xs = elim (Bool-cases (is_normal ((threads x).priority))) [
  | inl e ↦ rw e refl
  | inr e ↦ rw e refl
]

normals-cons :
    (threads : ℕ → Thread) (x : ℕ) (xs : List ℕ)
    → normals threads (x ∷ xs) ≡ normals threads (x ∷ []) ++ normals threads xs
unfolding normals
normals-cons threads x xs = elim (Bool-cases (is_normal ((threads x).priority))) [
  | inl e ↦ rw e refl
  | inr e ↦ rw e refl
]

pub drain_blocked_lem :
    (fuel : ℕ) (s : Scheduler) (b i n : List ℕ)
    → Queues s b i n
    → length b < fuel
    → length b + length i ≤ slot_count
    → length b + length n ≤ slot_count
    → (s' : Scheduler) × (drain_blocked fuel s ≡ done s')
      × Moved s s' [] (i ++ idles s.threads b) (n ++ normals s.threads b)
unfolding drain_blocked
drain_blocked_lem zero s b i n h f p q = absurd (omega arith)
drain_blocked_lem (suc fuel) s [] i n h f p q = (
  s,
  rw (dequeue-nil s.blocked_queue h.blocked_holds) refl,
  unfold idles normals in
      record {
        queues = record {
          blocked_holds = h.blocked_holds;
          idle_holds = subst (Holds s.idle_queue) (sym (append-nil i)) h.idle_holds;
          normal_holds = subst (Holds s.normal_queue) (sym (append-nil n)) h.normal_holds;
        };
        threads = refl;
        list = refl;
      },
)
drain_blocked_lem (suc fuel) s (x ∷ b) i n h f p q =
    let (rest, taken, holds) = dequeue-cons s.blocked_queue x b h.blocked_holds in
    let before = record s { blocked_queue = rest } in
    let (s', put, moved) =
      requeue_lem x before b i n
        (record { blocked_holds = holds; idle_holds = h.idle_holds; normal_holds = h.normal_holds })
        (omega arith) (omega arith) in
    let count = length-normals s.threads (x ∷ []) in
    let (s'', drained, all) =
      drain_blocked_lem fuel s' b (i ++ idles s.threads (x ∷ [])) (n ++ normals s.threads (x ∷ []))
        moved.queues (omega arith) (omega (arith, length-append {0} i (idles s.threads (x ∷ []))))
        (omega (arith, length-append {0} n (normals s.threads (x ∷ [])))) in
    (
      s'',
      rw taken (rw put drained),
      record {
        queues = record {
          blocked_holds = all.queues.blocked_holds;
          idle_holds =
              subst (Holds s''.idle_queue)
                (ap (λ t. (i ++ idles s.threads (x ∷ [])) ++ idles t b) moved.threads
                  ∙ append_assoc i (idles s.threads (x ∷ [])) (idles s.threads b)
                  ∙ ap (λ xs. i ++ xs) (sym (idles-cons s.threads x b)))
                all.queues.idle_holds;
          normal_holds =
              subst (Holds s''.normal_queue)
                (ap (λ t. (n ++ normals s.threads (x ∷ [])) ++ normals t b) moved.threads
                  ∙ append_assoc n (normals s.threads (x ∷ [])) (normals s.threads b)
                  ∙ ap (λ xs. n ++ xs) (sym (normals-cons s.threads x b)))
                all.queues.normal_holds;
        };
        threads = all.threads ∙ moved.threads;
        list = all.list ∙ moved.list;
      },
    )
