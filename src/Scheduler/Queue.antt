-- ===== src/Scheduler/Queue.antt =====
-- The ring of a priority queue and the list of threads that it holds. The counters wrap around at
-- 2^32.
use umbongo.Base.{
  ℕ, zero, suc, ◌+◌, ◌%◌, ◌^◌, ◌≤◌, ◌<◌, ◌≡◌, refl, ◌≢◌, ==_iff, sym, subst, get_elem?, replicate,
  length-replicate, ◌∙◌, List, [], ◌∷◌, ◌++◌, true, false, Option, none, some, ◌==◌, if◌then◌else◌,
  Bool-cases, inl, inr, length, length-append, length-set, get_or, get_or-set, get_elem?, set,
  add_u32, sub_u32, arith,
}
use umbongo.Base.Outcome.{done}
use umbongo.Scheduler.{slot_count, PriorityQueue, new_queue, not_positive, enqueue, dequeue}

-- The slots from the tail on hold the threads, and the others none.
pub record Holds (q : PriorityQueue) (xs : List ℕ) : Type 0 where
  pub size : length q.slots ≡ slot_count
  pub tail : q.tail < 2 ^ 32
  pub head : q.head ≡ (q.tail + length xs) % 2 ^ 32
  pub room : length xs ≤ slot_count
  pub slot :
      (k : ℕ) → k < slot_count → get_or q.slots ((q.tail + k) % slot_count) none ≡ get_elem? xs k

get_elem?-end :
    (xs : List ℕ) (k : ℕ) (x : ℕ)
    → get_elem? (xs ++ x ∷ []) k ≡ (if length xs == k then some x else get_elem? xs k)
get_elem?-end [] zero x = refl
get_elem?-end [] (suc k) x = ground arith
get_elem?-end (y ∷ xs) zero x = ground arith
get_elem?-end (y ∷ xs) (suc k) x = get_elem?-end xs k x ∙ ground arith

get_elem?-none : (xs : List ℕ) (k : ℕ) → length xs ≤ k → get_elem? xs k ≡ none
get_elem?-none [] k h = refl
get_elem?-none (x ∷ xs) zero h = absurd (omega arith)
get_elem?-none (x ∷ xs) (suc k) h = get_elem?-none xs k (omega arith)

pub eq_self : (n : ℕ) → (n == n) ≡ true
eq_self n = (==_iff n n).1 refl

eq_other : (m n : ℕ) → m ≢ n → (m == n) ≡ false
eq_other m n h = ground arith

-- Two places within a round have different slots.
same_slot :
    (tail n k : ℕ)
    → n < slot_count
    → k < slot_count
    → ((tail + n) % slot_count == (tail + k) % slot_count) ≡ (n == k)
same_slot tail n k hn hk = elim (Bool-cases (n == k)) [
  | inl e ↦ let same : n ≡ k = ground arith in rw same (eq_self _ ∙ sym (eq_self k))
  | inr e ↦
      let apart : n ≢ k = λ same. ground arith in eq_other _ _ (λ same. apart (omega arith)) ∙ sym e
]

module _ (q : PriorityQueue) (xs : List ℕ) (h : Holds q xs) where
  next_slot : q.head % slot_count ≡ (q.tail + length xs) % slot_count
  next_slot = omega (arith, h.head)

  -- Every place of the queue after a write to the next slot.
  written :
      (x k : ℕ)
      → length xs < slot_count
      → k < slot_count
      → get_or
          (set q.slots ((q.tail + length xs) % slot_count) (some x))
          ((q.tail + k) % slot_count)
          none
        ≡ get_elem? (xs ++ x ∷ []) k
  written x k less lt =
      get_or-set q.slots ((q.tail + length xs) % slot_count) ((q.tail + k) % slot_count) (some x)
        none (omega (arith, h.size))
      ∙ rw (same_slot q.tail (length xs) k less lt) (rw (h.slot k lt) (sym (get_elem?-end xs k x)))

  pub enqueue_lem :
      (x : ℕ)
      → length xs < slot_count
      → (q' : PriorityQueue) × (enqueue x q ≡ done q') × Holds q' (xs ++ x ∷ [])
  unfolding enqueue
  enqueue_lem x less =
      let free = h.slot (length xs) less ∙ get_elem?-none xs (length xs) (omega arith) in
      (
        record q {
          slots = set q.slots ((q.tail + length xs) % slot_count) (some x);
          head = add_u32 q.head 1;
        },
        rw (next_slot, enqueue) (rw (free, enqueue) (rw next_slot refl)),
        record {
          size = length-set q.slots _ _ ∙ h.size;
          tail = h.tail;
          head = omega (arith, h.head, length-append {0} xs (x ∷ []));
          room = omega (arith, length-append {0} xs (x ∷ []));
          slot = λ k lt. written x k less lt;
        },
      )

-- An empty queue is seen as such,
pub dequeue-nil : (q : PriorityQueue) → Holds q [] → dequeue q ≡ done (q, none)
unfolding dequeue
dequeue-nil q h = ground (arith, h.head, h.tail)

-- Every place of the queue after its first thread is taken off.
taken :
    (q : PriorityQueue) (x : ℕ) (xs : List ℕ) (k : ℕ)
    → Holds q (x ∷ xs)
    → k < slot_count
    → get_or (set q.slots (q.tail % slot_count) none) ((add_u32 q.tail 1 + k) % slot_count) none
      ≡ get_elem? xs k
taken q x xs k h lt =
    let place : (add_u32 q.tail 1 + k) % slot_count ≡ (q.tail + suc k) % slot_count = omega arith in
    let split =
      get_or-set q.slots (q.tail % slot_count) ((q.tail + suc k) % slot_count) none none
        (omega (arith, h.size)) in
    rw place (elim (Bool-cases (k == 1023)) [
      | inl e ↦
          let same : q.tail % slot_count ≡ (q.tail + suc k) % slot_count = ground arith in
          split
          ∙ rw (← same) (
              rw (eq_self (q.tail % slot_count))
                (sym (get_elem?-none xs k (ground (arith, h.room)))))
      | inr e ↦
          let below : suc k < slot_count = ground arith in
          let other : (q.tail % slot_count == (q.tail + suc k) % slot_count) ≡ false =
            eq_other _ _ (λ same. absurd (omega arith)) in
          split ∙ rw other (h.slot (suc k) below)
    ])

-- and another gives its first thread.
pub dequeue-cons :
    (q : PriorityQueue) (x : ℕ) (xs : List ℕ)
    → Holds q (x ∷ xs)
    → (q' : PriorityQueue) × (dequeue q ≡ done (q', some x)) × Holds q' xs
unfolding dequeue
dequeue-cons q x xs h =
    let more : not_positive (sub_u32 q.head q.tail) ≡ false =
      ground (arith, h.head, h.tail, h.room) in
    let start : q.tail + 0 ≡ q.tail = omega arith in
    let first =
      subst (λ i. get_or q.slots (i % slot_count) none ≡ some x) start (h.slot 0 (omega arith)) in
    (
      record q { slots = set q.slots (q.tail % slot_count) none; tail = add_u32 q.tail 1 },
      rw (more, dequeue) (rw (first, dequeue) refl),
      record {
        size = length-set q.slots _ _ ∙ h.size;
        tail = omega arith;
        head = omega (arith, h.head);
        room = omega (arith, h.room);
        slot = λ k lt. taken q x xs k h lt;
      },
    )

get_or-replicate : (n i : ℕ) → get_or {A = Option ℕ} (replicate n none) i none ≡ none
get_or-replicate zero i = refl
get_or-replicate (suc n) zero = refl
get_or-replicate (suc n) (suc i) = get_or-replicate n i

pub new_queue-Holds : Holds new_queue []
new_queue-Holds = record {
  size = length-replicate {A = Option ℕ} slot_count none;
  tail = omega arith;
  head = refl;
  room = omega arith;
  slot = λ k lt. get_or-replicate slot_count ((0 + k) % slot_count);
}
