-- ===== src/Scheduler/Scan.antt =====
-- The loop of `pick_next` over one queue.
use umbongo.Base.{
  ℕ, zero, suc, ◌+◌, ◌-◌, ◌≤◌, ◌<◌, ◌≡◌, refl, sym, ap, subst, ◌∙◌, List, [], ◌∷◌, ◌++◌, Bool, true,
  false, ◌&&◌, ◌||◌, none, some, Bool-cases, inl, inr, length, length-append, append-nil,
  append_assoc, arith,
}
use umbongo.Base.Outcome.{done}
use umbongo.Scheduler.{
  slot_count, Thread, PriorityQueue, is_blocked, is_alive, try_unblock, pass, pick_from,
}
use umbongo.Scheduler.Queue.{Holds, eq_self, enqueue_lem, dequeue-nil, dequeue-cons}

or_false : (a b : Bool) → (a || b) ≡ false → (a ≡ false) × (b ≡ false)
or_false true b e = cc
or_false false b e = (refl, e)

or_left : (a b : Bool) → (a || b) ≡ true → b ≡ false → a ≡ true
or_left true b e f = refl
or_left false b e f = cc

module _ (should_unblock : ℕ → Bool) (threads : ℕ → Thread) where
  -- Whether a thread can run, or could if it were asked whether it still has to wait.
  abbrev pub can_run : ℕ → Bool
  can_run x = is_alive ((threads x).state) || (is_blocked ((threads x).state) && should_unblock x)

  abbrev pub AllWait : List ℕ → Type 0
  AllWait [] = Unit
  AllWait (x ∷ xs) = (can_run x ≡ false) × AllWait xs

  pub append-AllWait : (xs ys : List ℕ) → AllWait xs → AllWait ys → AllWait (xs ++ ys)
  append-AllWait [] ys h k = k
  append-AllWait (x ∷ xs) ys h k = (h.0, append-AllWait xs ys h.1 k)

  -- The first thread of a list that can run.
  pub data First : List ℕ → Type 0 where
    none_runs : {xs : List ℕ} → AllWait xs → First xs
    runs :
        {xs : List ℕ} (pre : List ℕ) (x : ℕ) (post : List ℕ)
        → xs ≡ pre ++ x ∷ post
        → AllWait pre
        → can_run x ≡ true
        → First xs

  pub first_lem : (xs : List ℕ) → First xs
  first_lem [] = none_runs tt
  first_lem (x ∷ xs) = elim (Bool-cases (can_run x)) [
    | inl e ↦ runs [] x xs refl tt e
    | inr e ↦ elim (first_lem xs) [
      | none_runs h ↦ none_runs (e, h)
      | runs pre y post f h k ↦ runs (x ∷ pre) y post (ap (λ ys. x ∷ ys) f) (e, h) k
    ]
  ]

  -- A thread that cannot run stays as it is when it is asked,
  waits : (x : ℕ) → can_run x ≡ false → try_unblock should_unblock x threads ≡ threads
  unfolding try_unblock
  waits x e =
      let parts =
        or_false (is_alive ((threads x).state)) (is_blocked ((threads x).state) && should_unblock x)
          e in
      rw parts.1 refl

  not_alive : (x : ℕ) → can_run x ≡ false → is_alive ((threads x).state) ≡ false
  not_alive x e = (or_false _ _ e).0

  -- and one that can is alive then.
  pub runs_alive :
      (x : ℕ) → can_run x ≡ true → is_alive ((try_unblock should_unblock x threads x).state) ≡ true
  unfolding try_unblock
  runs_alive x e = elim (Bool-cases (is_blocked ((threads x).state) && should_unblock x)) [
    | inl t ↦ rw t (rw (eq_self x) refl)
    | inr f ↦ rw f (or_left _ _ e f)
  ]

  -- The loop over a queue passes the threads that cannot run on to the blocked queue,
  passed_over :
      (pre rest : List ℕ) (fuel more : ℕ) (q b : PriorityQueue) (bs : List ℕ)
      → AllWait pre
      → Holds q (pre ++ rest)
      → Holds b bs
      → length bs + length pre ≤ slot_count
      → fuel ≡ length pre + more
      → (q' : PriorityQueue) × (b' : PriorityQueue) × Holds q' rest
        × Holds b' (bs ++ pre)
        × (pick_from should_unblock fuel q b threads ≡ pick_from should_unblock more q' b' threads)
  unfolding pick_from
  passed_over [] rest fuel more q b bs w h k room e =
      let same : fuel ≡ more = omega arith in
      (
        q,
        b,
        h,
        subst (Holds b) (sym (append-nil bs)) k,
        ap (λ f. pick_from should_unblock f q b threads) same,
      )
  passed_over (x ∷ pre) rest zero more q b bs w h k room e = absurd (omega arith)
  passed_over (x ∷ pre) rest (suc fuel) more q b bs w h k room e =
      let (q', taken, holds) = dequeue-cons q x (pre ++ rest) h in
      let (b', put, kept) = enqueue_lem b bs k x (omega arith) in
      let (q'', b'', holds', kept', same) =
        passed_over pre rest fuel more q' b' (bs ++ x ∷ []) w.1 holds kept
          (omega (arith, length-append {0} bs (x ∷ []))) (omega arith) in
      (
        q'',
        b'',
        holds',
        subst (Holds b'') (append_assoc bs (x ∷ []) pre) kept',
        rw taken (rw (waits x w.0) (rw (not_alive x w.0) (rw put same))),
      )

  -- stops at the first that can,
  pub pick_from-runs :
      (pre : List ℕ) (x : ℕ) (post : List ℕ) (fuel : ℕ) (q b : PriorityQueue) (bs : List ℕ)
      → AllWait pre
      → can_run x ≡ true
      → Holds q (pre ++ x ∷ post)
      → Holds b bs
      → length bs + length pre ≤ slot_count
      → length pre < fuel
      → (q' : PriorityQueue) × (b' : PriorityQueue) × Holds q' post
        × Holds b' (bs ++ pre)
        × (pick_from should_unblock fuel q b threads
            ≡ done (pass (try_unblock should_unblock x threads) q' b' (some x)))
  unfolding pick_from
  pick_from-runs pre x post fuel q b bs w run h k room less =
      let more = fuel - length pre - 1 in
      let (q', b', holds, kept, same) =
        passed_over pre (x ∷ post) fuel (suc more) q b bs w h k room (omega arith) in
      let (q'', taken, rest) = dequeue-cons q' x post holds in
      (q'', b', rest, kept, same ∙ rw taken (rw (runs_alive x run) refl))

  -- and otherwise ends with no thread.
  pub pick_from-none :
      (xs : List ℕ) (fuel : ℕ) (q b : PriorityQueue) (bs : List ℕ)
      → AllWait xs
      → Holds q xs
      → Holds b bs
      → length bs + length xs ≤ slot_count
      → length xs < fuel
      → (q' : PriorityQueue) × (b' : PriorityQueue) × Holds q' []
        × Holds b' (bs ++ xs)
        × (pick_from should_unblock fuel q b threads ≡ done (pass threads q' b' none))
  unfolding pick_from
  pick_from-none xs fuel q b bs w h k room less =
      let more = fuel - length xs - 1 in
      let (q', b', holds, kept, same) =
        passed_over xs [] fuel (suc more) q b bs w (subst (Holds q) (sym (append-nil xs)) h) k room
          (omega arith) in
      (q', b', holds, kept, same ∙ rw (dequeue-nil q' holds) refl)
