-- ===== src/Sched/Switch.antt =====
-- suspend_self of src/kern/thread.c: the first ready thread runs, and a caller that could go on
-- stands at the end of the ready list.
use mathlib.Core.Path.{subst}
use operating_systems_final.Prelude.{
  ℕ, ◌≡◌, refl, sym, ap, ◌∙◌, ◌≢◌, inl, inr, true, false, none, some, List, [], ◌∷◌, ◌++◌, arith,
  ◌==◌, Bool-cases, All,
}
use operating_systems_final.Thread.{Next, ThreadList, tlremove}
use operating_systems_final.Thread.Chains.{Holds, NotIn, NotIn-append, Frame}
use operating_systems_final.Thread.Lists.{tlinsert-append, tlremove-cons}
use operating_systems_final.Sched.{
  Sched, ThreadState, waiting, running, ready, update, is_running, is_ready, set_state,
  insert_ready, switch_to, resume, suspend_self, thread_yield,
}
use operating_systems_final.Sched.Queues.{
  Waits, Core, IsSound, update_self, update_ne, All-imp, All-In, In-left, In-right, All-append,
  NotIn-state, Frame-Holds,
}

-- A removal from a list that holds a thread.
remove_first :
    (next : Next) (l : ThreadList) (x : ℕ) (rest : List ℕ)
    → Holds next l (x ∷ rest)
    → (l' : ThreadList) × (next' : Next) × (tlremove l next ≡ (some x, l', next'))
      × Holds next' l' rest
      × Frame next next' (x ∷ [])
remove_first next l x rest h = elim (tlremove-cons next l (x ∷ rest) h) [
  | inl (e, t, h) ↦ cc
  | inr (y, ys, e, t, unlinked, holds, frame) ↦
      let same : x ≡ y = cc in
      let tail : rest ≡ ys = cc in
      let l' = (tlremove l next).1 in
      let next' = (tlremove l next).2 in
      (
        l',
        next',
        ap (λ a. (a, l', next')) (t ∙ ap some (sym same)),
        subst (λ r. Holds next' l' r) (sym tail) holds,
        subst (λ r. Frame next next' (r ∷ [])) (sym same) frame,
      )
]

-- Threads in another state than `x` are apart from it.
apart_from :
    (s : Sched) (a : ThreadState) (x : ℕ) (xs : List ℕ)
    → (a ≡ s.state x → ⊥)
    → All (λ u. s.state u ≡ a) xs
    → All (λ u. NotIn u (x ∷ [])) xs
apart_from s a x xs d h =
    All-imp (λ u. s.state u ≡ a) (λ u. NotIn u (x ∷ [])) xs
      (λ u i q. (λ e. d (sym q ∙ ap s.state (sym e)), tt)) h

pub waiting_only :
    (s : Sched) (c : ℕ) (xs : List ℕ) → All (Waits s c) xs → All (λ u. s.state u ≡ waiting) xs
waiting_only s c xs h = All-imp (Waits s c) (λ u. s.state u ≡ waiting) xs (λ u i q. q.0) h

-- The state after the first thread has been taken from the ready list and is running.
take_first :
    (s : Sched) (x : ℕ) (rest : List ℕ) (w : ℕ → List ℕ) (l : ThreadList) (next : Next)
    → Core s (x ∷ rest) w
    → Holds next l rest
    → Frame s.next next (x ∷ [])
    → Core (set_state x running (record s { ready_list = l; next = next })) rest w
take_first s x rest w l next k h f =
    let is_ready_x : s.state x ≡ ready = k.are_ready.0 in
    let others : (u : ℕ) → u ≢ x → update s.state x running u ≡ s.state u =
      λ u d. update_ne s.state x u running d in
    record {
      on_ready = h;
      on_wait = λ c.
          Frame-Holds (x ∷ []) (w c) f
            (apart_from s waiting x (w c) (λ e. let bad : waiting ≡ ready = e ∙ is_ready_x in cc)
              (waiting_only s c (w c) (k.are_waiting c)))
            (k.on_wait c);
      are_ready =
          All-imp (λ u. u ≢ x) (λ u. update s.state x running u ≡ ready) rest
            (λ u i d. others u d ∙ All-In (λ t. s.state t ≡ ready) rest u k.are_ready.1 i)
            k.on_ready.distinct.0;
      are_waiting = λ c.
          All-imp (Waits s c)
            (λ u. (update s.state x running u ≡ waiting) × (s.wait_cond u ≡ some c)) (w c)
            (λ u i q. (
              others u (λ e. let bad : waiting ≡ ready = sym q.0 ∙ ap s.state e ∙ is_ready_x in cc)
                  ∙ q.0,
              q.1,
            ))
            (k.are_waiting c);
      queued = λ t e. ground (arith, k.queued t);
      listed = λ t c e g. ground (arith, k.listed t c);
      own = λ t c e g b. ground (arith, k.own t c);
      in_table = k.in_table;
      vacant = λ t e. ground (arith, k.vacant t, is_ready_x);
    }

-- A thread that is in no list joins the ready list, at its end.
pub insert_ready-Core :
    (s : Sched) (q : List ℕ) (w : ℕ → List ℕ) (t : ℕ)
    → Core s q w
    → (s.state t ≡ ready → ⊥)
    → (s.state t ≡ waiting → ⊥)
    → s.thrtab t ≡ true
    → (l : ThreadList) × (next : Next) × (insert_ready t (set_state t ready s)
        ≡ some (record (set_state t ready s) { ready_list = l; next = next }))
      × Core (record (set_state t ready s) { ready_list = l; next = next }) (q ++ (t ∷ [])) w
insert_ready-Core s q w t k not_ready not_waiting used =
    let away : NotIn t q =
      All-imp (λ u. s.state u ≡ ready) (λ u. u ≢ t) q
        (λ u i e same. not_ready (ap s.state (sym same) ∙ e)) k.are_ready in
    let (l, next, e, h, f) = tlinsert-append s.next s.ready_list q t k.on_ready away in
    let others : (u : ℕ) → u ≢ t → update s.state t ready u ≡ s.state u =
      λ u d. update_ne s.state t u ready d in
    (
      l,
      next,
      rw (e, insert_ready) refl,
      record {
        on_ready = h;
        on_wait = λ c.
            Frame-Holds (q ++ (t ∷ [])) (w c) f
              (All-imp (Waits s c) (λ u. NotIn u (q ++ (t ∷ []))) (w c)
                (λ u i p.
                  NotIn-append u q (t ∷ [])
                    (NotIn-state s ready waiting u q (λ b. cc) p.0 k.are_ready)
                    (λ b. not_waiting (ap s.state b ∙ p.0), tt))
                (k.are_waiting c))
              (k.on_wait c);
        are_ready =
            All-append (λ u. update s.state t ready u ≡ ready) q (t ∷ [])
              (All-imp (λ u. s.state u ≡ ready) (λ u. update s.state t ready u ≡ ready) q
                (λ u i e. ground arith) k.are_ready)
              (update_self s.state t ready, tt);
        are_waiting = λ c.
            All-imp (Waits s c)
              (λ u. (update s.state t ready u ≡ waiting) × (s.wait_cond u ≡ some c)) (w c)
              (λ u i p. (others u (λ e. not_waiting (ap s.state (sym e) ∙ p.0)) ∙ p.0, p.1))
              (k.are_waiting c);
        queued = λ u e. elim (Bool-cases (u == t)) [
          | inl same ↦ In-right u q (t ∷ []) (inl (ground arith))
          | inr other ↦ In-left u q (t ∷ []) (k.queued u (ground arith))
        ];
        listed = λ u c e g. ground (arith, k.listed u c);
        own = λ u c e g b. ground (arith, k.own u c);
        in_table = k.in_table;
        vacant = λ u e. ground (arith, k.vacant u, used);
      },
    )

-- With no thread to run, the kernel panics.
pub suspend_self-none : (s : Sched) → Holds s.next s.ready_list [] → suspend_self s ≡ none
unfolding suspend_self resume
suspend_self-none s h = elim (tlremove-cons s.next s.ready_list [] h) [
  | inl (e, t, k) ↦
      ap (λ z. resume (z, (tlremove s.ready_list s.next).1, (tlremove s.ready_list s.next).2) s) t
  | inr (x, rest, e, t, z, k, f) ↦ cc
]

switch_blocked :
    (s : Sched) (x : ℕ)
    → s.state x ≡ ready
    → (s.state s.current ≡ running → ⊥)
    → s.current ≢ x
    → switch_to x s ≡ some (record (set_state x running s) { current = x })
unfolding switch_to
switch_blocked s x e not_running other =
    let stays : is_running (update s.state x running s.current) ≡ false =
      ground (arith, not_running) in
    rw (ap is_ready e, stays) refl

-- A caller that cannot go on, with a thread that is ready: that thread runs.
pub suspend_self-blocked :
    (s : Sched) (x : ℕ) (rest : List ℕ) (w : ℕ → List ℕ)
    → Core s (x ∷ rest) w
    → (s.state s.current ≡ running → ⊥)
    → (s.state s.current ≡ ready → ⊥)
    → ((u : ℕ) → s.state u ≡ running → u ≡ s.current)
    → (s' : Sched) × (suspend_self s ≡ some s')
      × IsSound s' rest w
      × (s'.current ≡ x)
      × (s'.state ≡ update s.state x running)
unfolding suspend_self resume
suspend_self-blocked s x rest w k not_running not_ready single =
    let (l, next, e, h, f) = remove_first s.next s.ready_list x rest k.on_ready in
    let s₁ : Sched = record s { ready_list = l; next = next } in
    let other : s.current ≢ x = λ b. not_ready (ap s.state b ∙ k.are_ready.0) in
    let core = take_first s x rest w l next k h f in
    (
      record (set_state x running s₁) { current = x },
      ap (λ r. resume r s) e ∙ switch_blocked s₁ x k.are_ready.0 not_running other,
      record {
        core = record {
          on_ready = core.on_ready;
          on_wait = core.on_wait;
          are_ready = core.are_ready;
          are_waiting = core.are_waiting;
          queued = core.queued;
          listed = core.listed;
          own = core.own;
          in_table = core.in_table;
          vacant = core.vacant;
        };
        runs = update_self s.state x running;
        single = λ u r. elim (Bool-cases (u == x)) [
          | inl same ↦ ground arith
          | inr differs ↦
              absurd (not_running (ap s.state (sym (single u (ground arith))) ∙ ground arith))
        ];
      },
      refl,
      refl,
    )

pub used-state :
    (s : Sched) (q : List ℕ) (w : ℕ → List ℕ) (t : ℕ)
    → Core s q w
    → s.state t ≡ running
    → s.thrtab t ≡ true
used-state s q w t k e = elim (Bool-cases (s.thrtab t)) [
  | inl yes_used ↦ yes_used
  | inr free ↦ absurd (ground (arith, k.vacant t free))
]

switch_running :
    (s s₂ : Sched) (x : ℕ)
    → s.state x ≡ ready
    → s.state s.current ≡ running
    → insert_ready s.current (set_state s.current ready (set_state x running s)) ≡ some s₂
    → switch_to x s ≡ some (record s₂ { current = x })
unfolding switch_to
switch_running s s₂ x e runs inserted =
    let goes : is_running (update s.state x running s.current) ≡ true = ground arith in
    rw (ap is_ready e, goes, inserted) refl

-- A running caller, with a thread that is ready: that thread runs, and the caller is the last of
-- those that are ready.
pub suspend_self-running :
    (s : Sched) (x : ℕ) (rest : List ℕ) (w : ℕ → List ℕ)
    → IsSound s (x ∷ rest) w
    → (s' : Sched) × (suspend_self s ≡ some s')
      × IsSound s' (rest ++ (s.current ∷ [])) w
      × (s'.current ≡ x)
unfolding suspend_self resume
suspend_self-running s x rest w q =
    let k = q.core in
    let (l, next, e, h, f) = remove_first s.next s.ready_list x rest k.on_ready in
    let s₁ : Sched = record s { ready_list = l; next = next } in
    let taken = set_state x running s₁ in
    let core = take_first s x rest w l next k h f in
    let other : s.current ≢ x =
      λ b. let bad : running ≡ ready = sym q.runs ∙ ap s.state b ∙ k.are_ready.0 in cc in
    let same : update s.state x running s.current ≡ running = ground arith in
    let (l', next', e', core') =
      insert_ready-Core taken rest w s.current core
        (λ b. let bad : running ≡ ready = sym same ∙ b in cc)
        (λ b. let bad : running ≡ waiting = sym same ∙ b in cc)
        (used-state s (x ∷ rest) w s.current k q.runs) in
    (
      record (set_state s.current ready taken) { ready_list = l'; next = next'; current = x },
      ap (λ r. resume r s) e ∙ switch_running s₁ _ x k.are_ready.0 q.runs e',
      record {
        core = record {
          on_ready = core'.on_ready;
          on_wait = core'.on_wait;
          are_ready = core'.are_ready;
          are_waiting = core'.are_waiting;
          queued = core'.queued;
          listed = core'.listed;
          own = core'.own;
          in_table = core'.in_table;
          vacant = core'.vacant;
        };
        runs = ground (arith, other);
        single = λ u r. elim (Bool-cases (u == x)) [
          | inl b ↦ ground arith
          | inr b ↦ ground (arith, q.single u)
        ];
      },
      refl,
    )

-- The thread that yields stands at the end of the ready list, and the first of the list runs.
pub thread_yield-turn :
    (s : Sched) (x : ℕ) (rest : List ℕ) (w : ℕ → List ℕ)
    → IsSound s (x ∷ rest) w
    → (s' : Sched) × (thread_yield s ≡ some s')
      × IsSound s' (rest ++ (s.current ∷ [])) w
      × (s'.current ≡ x)
unfolding thread_yield
thread_yield-turn s x rest w q = rw (ap is_running q.runs) (suspend_self-running s x rest w q)

-- With no thread to run, a yield is a panic.
pub thread_yield-none : (s : Sched) (w : ℕ → List ℕ) → IsSound s [] w → thread_yield s ≡ none
unfolding thread_yield
thread_yield-none s w q = rw (ap is_running q.runs) (suspend_self-none s q.core.on_ready)
