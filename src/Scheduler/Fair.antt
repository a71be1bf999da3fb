-- ===== src/Scheduler/Fair.antt =====
-- How far a normal thread is from its turn, before and after a switch.
use umbongo.Base.{
  ℕ, suc, ◌+◌, ◌-◌, ◌≤◌, ◌<◌, ◌≡◌, refl, sym, ap, subst, ◌∙◌, List, [], ◌∷◌, ◌++◌, Bool, true,
  false, inl, inr, Bool-cases, if◌then◌else◌, length, length-append, append_assoc, arith,
}
use umbongo.Base.Outcome.{Outcome, done, ◌>>=◌}
use umbongo.Scheduler.{
  slot_count, Thread, Scheduler, is_dead, remove_thread, pick_next, switch_next,
}
use umbongo.Scheduler.{delete_dead}
use umbongo.Scheduler.Drain.{Queues, normals, idles, length-normals, requeue_lem}
use umbongo.Scheduler.Scan.{can_run, AllWait}
use umbongo.Scheduler.Pick.{Picked, picked_normal, picked_idle, none_picked, pick_next_lem}

-- Where a thread is that can run, in a list whose first thread that can is `x`.
data Turn (t x : ℕ) (pre rest : List ℕ) (q : List ℕ) : Type 0 where
  now : x ≡ t → Turn t x pre rest q
  later : (pre' : List ℕ) → length pre' < length pre → q ≡ pre' ++ t ∷ rest → Turn t x pre rest q

module _ (should_unblock : ℕ → Bool) (threads : ℕ → Thread) (t : ℕ)
    (run : can_run should_unblock threads t ≡ true) where
  turn :
      (pre rest p : List ℕ) (x : ℕ) (q : List ℕ)
      → pre ++ t ∷ rest ≡ p ++ x ∷ q
      → AllWait should_unblock threads p
      → Turn t x pre rest q
  turn [] rest [] x q e w = now (cc)
  turn [] rest (y ∷ p) x q e w =
      let same : t ≡ y = cc in
      absurd (cc (subst (λ z. can_run should_unblock threads z ≡ true) same run, w.0))
  turn (y ∷ pre) rest [] x q e w = later pre (omega arith) (cc)
  turn (y ∷ pre) rest (z ∷ p) x q e w =
      let tails : pre ++ t ∷ rest ≡ p ++ x ∷ q = cc in
      elim (turn pre rest p x q tails w.1) [
        | now same ↦ now same
        | later pre' less f ↦ later pre' (omega arith) f
      ]

  -- A list in which it stands is not one of waiting threads only.
  not_all :
      (pre rest more : List ℕ) → AllWait should_unblock threads ((pre ++ t ∷ rest) ++ more) → ⊥
  not_all [] rest more w = cc (w.0, run)
  not_all (y ∷ pre) rest more w = not_all pre rest more w.1

-- A normal thread that has at most `k` others before it. A slot is spare for the current thread.
pub record Waiting (t k : ℕ) (s : Scheduler) : Type 0 where
  pub b : List ℕ
  pub i : List ℕ
  pub pre : List ℕ
  pub post : List ℕ
  pub queues : Queues s b i (pre ++ t ∷ post)
  pub size : length b + length i + length (pre ++ t ∷ post) < slot_count
  pub ahead : length pre ≤ k

-- The turn is the thread's, or comes closer.
pub data Closer (t k x : ℕ) (s : Scheduler) : Type 0 where
  its_turn : x ≡ t → Closer t k x s
  closer : (k' : ℕ) → k ≡ suc k' → Waiting t k' s → Closer t k x s

Picked-Closer :
    (should_unblock : ℕ → Bool) (t k : ℕ) (s : Scheduler) (b i pre post : List ℕ)
    (r : Outcome (Scheduler × ℕ))
    → Picked should_unblock s b i (pre ++ t ∷ post) r
    → can_run should_unblock s.threads t ≡ true
    → length b + length i + length (pre ++ t ∷ post) ≤ slot_count
    → length pre ≤ k
    → (s' : Scheduler) × (x : ℕ) × (r ≡ done (s', x)) × Closer t k x s'
Picked-Closer should_unblock t k s b i pre post _ (picked_normal s' p x q e w rx h threads list) run
      size less =
    let ns = normals s.threads b in
    let regroup : pre ++ t ∷ (post ++ ns) ≡ p ++ x ∷ q = sym (append_assoc pre (t ∷ post) ns) ∙ e in
    (
      s',
      x,
      refl,
      elim (turn should_unblock s.threads t run pre (post ++ ns) p x q regroup w) [
        | now same ↦ its_turn same
        | later pre' before f ↦
            let all = ap length e in
            closer (k - 1) (omega arith) (record {
              b = p;
              i = i ++ idles s.threads b;
              pre = pre';
              post = post ++ ns;
              queues = subst (Queues s' p (i ++ idles s.threads b)) f h;
              size = omega (
                arith,
                all,
                ap length f,
                length-append {0} (pre ++ t ∷ post) ns,
                length-append {0} p (x ∷ q),
                length-append {0} i (idles s.threads b),
                length-normals s.threads b,
              );
              ahead = omega arith;
            })
      ],
    )
Picked-Closer should_unblock t k s b i pre post _ (picked_idle s' p x q v e w rx h threads list) run
      size less =
    absurd (not_all should_unblock s.threads t run pre post (normals s.threads b) v)
Picked-Closer should_unblock t k s b i pre post _ (none_picked v w) run size less =
    absurd (not_all should_unblock s.threads t run pre post (normals s.threads b) v)

-- The list of all threads plays no part in it.
unlisted :
    (t k x : ℕ) (gone : Bool) (list : List ℕ) (s : Scheduler)
    → Closer t k x s
    → Closer t k x (if gone then record s { list = list } else s)
unlisted t k x false list s c = c
unlisted t k x true list s (its_turn e) = its_turn e
unlisted t k x true list s (closer k' e w) = closer k' e (record {
  b = w.b;
  i = w.i;
  pre = w.pre;
  post = w.post;
  queues = record {
    blocked_holds = w.queues.blocked_holds;
    idle_holds = w.queues.idle_holds;
    normal_holds = w.queues.normal_holds;
  };
  size = w.size;
  ahead = w.ahead;
})

abbrev left_by : ℕ → Scheduler × ℕ → Scheduler × ℕ
left_by current r = (delete_dead current r.0, r.1)

module _ (should_unblock : ℕ → Bool) (fuel current t k : ℕ) (enough : slot_count < fuel) where
  -- A switch from where the current thread is back in its queue, or dead.
  queued-Closer :
      (s : Scheduler) (b i pre post : List ℕ)
      → Queues s b i (pre ++ t ∷ post)
      → length b + length i + length (pre ++ t ∷ post) ≤ slot_count
      → length pre ≤ k
      → can_run should_unblock s.threads t ≡ true
      → (s' : Scheduler) × (x : ℕ) × ((pick_next should_unblock fuel s >>= λ r.
            done (left_by current r))
          ≡ done (s', x))
        × Closer t k x s'
  queued-Closer s b i pre post h size ahead run =
      let (s', x, picked, near) =
        Picked-Closer should_unblock t k s b i pre post _
          (pick_next_lem should_unblock fuel s b i (pre ++ t ∷ post) h size enough) run size
          ahead in
      (
        delete_dead current s',
        x,
        rw picked refl,
        unlisted t k x (is_dead ((s'.threads current).state)) (remove_thread current s'.list) s'
            near,
      )

  -- One switch.
  pub switch_next-Closer :
      (s : Scheduler)
      → Waiting t k s
      → can_run should_unblock s.threads t ≡ true
      → (s' : Scheduler) × (x : ℕ) × (switch_next should_unblock fuel current s ≡ done (s', x))
        × Closer t k x s'
  unfolding switch_next
  switch_next-Closer s v run = elim (Bool-cases (is_dead ((s.threads current).state))) [
    | inl gone ↦
        let (s', x, e, near) =
          queued-Closer s v.b v.i v.pre v.post v.queues (omega (arith, v.size)) v.ahead run in
        (s', x, rw gone e, near)
    | inr here ↦
        let n = v.pre ++ t ∷ v.post in
        let len = length-append {0} v.pre (t ∷ v.post) in
        let (s0, put, moved) =
          requeue_lem current s v.b v.i n v.queues (omega (arith, v.size))
            (omega (arith, v.size)) in
        let is = idles s.threads (current ∷ []) in
        let ns = normals s.threads (current ∷ []) in
        let count = length-normals s.threads (current ∷ []) in
        let regroup : n ++ ns ≡ v.pre ++ t ∷ (v.post ++ ns) = append_assoc v.pre (t ∷ v.post) ns in
        let (s', x, e, near) =
          queued-Closer s0 v.b (v.i ++ is) v.pre (v.post ++ ns)
            (subst (Queues s0 v.b (v.i ++ is)) regroup moved.queues)
            (omega (
              arith,
              v.size,
              count,
              ap length regroup,
              length-append {0} v.i is,
              length-append {0} n ns,
            ))
            v.ahead
            (subst (λ threads. can_run should_unblock threads t ≡ true) (sym moved.threads) run) in
        (s', x, rw here (rw put e), near)
  ]
