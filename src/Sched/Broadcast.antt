-- ===== src/Sched/Broadcast.antt =====
-- condition_broadcast of src/kern/thread.c.
use mathlib.Core.Path.{subst}
use mathlib.Core.List.{append-nil}
use operating_systems_final.Prelude.{
  ℕ, ◌<◌, ◌≡◌, refl, sym, ap, ◌∙◌, ◌≢◌, inl, inr, Bool, true, false, none, some, List, [], ◌∷◌,
  ◌++◌, arith, ◌==◌, Bool-cases, length,
}
use operating_systems_final.Thread.{Next, ThreadList, tlclear, tlempty}
use operating_systems_final.Thread.Chains.{Holds, NotIn}
use operating_systems_final.Thread.Lists.{tlappend-append}
use operating_systems_final.Sched.{
  Sched, waiting, ready, update, append_waiting, condition_broadcast,
}
use operating_systems_final.Sched.Queues.{
  In, Waits, Core, All-imp, All-In, All-append, In-left, In-right, NotIn-state, Frame-Holds,
}
use operating_systems_final.Sched.Marks.{
  set_all, set_all-In, set_all-NotIn, In-cases, mark_ready-set_all,
}
use operating_systems_final.Sched.Switch.{waiting_only}
use operating_systems_final.Sched.Wakeup.{other_list}

-- What a broadcast leaves: the threads of the list are ready, behind those that were.
pub record Woken (c : ℕ) (s s' : Sched) (queue : List ℕ) (waits : ℕ → List ℕ) : Type 0 where
  pub core : Core s' (queue ++ waits c) (update waits c [])
  pub current : s'.current ≡ s.current
  pub thrtab : s'.thrtab ≡ s.thrtab
  pub parent : s'.parent ≡ s.parent
  pub others : (u : ℕ) → NotIn u (waits c) → s'.state u ≡ s.state u

Holds-tlempty :
    (next : Next) (l : ThreadList) (xs : List ℕ) → Holds next l xs → tlempty l ≡ true → xs ≡ []
unfolding tlempty
Holds-tlempty next l [] h e = refl
Holds-tlempty next l (x ∷ xs) h e =
    let full : false ≡ true =
      subst (λ a. elim a as (λ b. Bool) [ none ↦ true | some t ↦ false ] ≡ true) h.chain.0 e in
    cc

unchanged_at : (w : ℕ → List ℕ) (c d : ℕ) → w c ≡ [] → w d ≡ update w c [] d
unchanged_at w c d e = elim (Bool-cases (d == c)) [
  | inl same ↦ rw same (ap w (ground arith) ∙ e)
  | inr other ↦ rw other refl
]

unchanged : (w : ℕ → List ℕ) (c : ℕ) → w c ≡ [] → w ≡ update w c []
unchanged w c e i d = unchanged_at w c d e i

append_waiting-Woken :
    (s : Sched) (q : List ℕ) (w : ℕ → List ℕ) (c : ℕ)
    → Core s q w
    → let s₁ : Sched = record s {
      state = set_all (w c) ready s.state;
      wait_cond = set_all (w c) none s.wait_cond;
    } in
      (s' : Sched) × (append_waiting c s₁ ≡ some s') × Woken c s s' q w
unfolding append_waiting tlclear
append_waiting-Woken s q w c k =
    let waits_c : (u : ℕ) → In u (w c) → Waits s c u =
      λ u i. All-In (Waits s c) (w c) u (k.are_waiting c) i in
    let awake : (u : ℕ) → s.state u ≡ ready → NotIn u (w c) = λ u p.
      NotIn-state s waiting ready u (w c) (λ b. cc) p (waiting_only s c (w c) (k.are_waiting c)) in
    let apart =
      All-imp (λ u. s.state u ≡ ready) (λ u. NotIn u (w c)) q (λ u i p. awake u p) k.are_ready in
    let (l, l', next, e, h, h', f) =
      tlappend-append s.next s.ready_list (s.wait_list c) q (w c) k.on_ready (k.on_wait c) apart in
    let keeps : (u : ℕ) → NotIn u (w c) → set_all (w c) ready s.state u ≡ s.state u =
      λ u a. set_all-NotIn (w c) ready s.state u a in
    let keeps_cond : (u : ℕ) → NotIn u (w c) → set_all (w c) none s.wait_cond u ≡ s.wait_cond u =
      λ u a. set_all-NotIn (w c) none s.wait_cond u a in
    let wakes : (u : ℕ) → In u (w c) → set_all (w c) ready s.state u ≡ ready =
      λ u i. set_all-In (w c) ready s.state u i in
    (
      record s {
        state = set_all (w c) ready s.state;
        wait_cond = set_all (w c) none s.wait_cond;
        ready_list = l;
        wait_list = update s.wait_list c (tlclear l');
        next = next;
      },
      rw (e, append_waiting) refl,
      record {
        core = record {
          on_ready = h;
          on_wait = λ d. elim (Bool-cases (d == c)) [
            | inl same ↦ rw same (record { chain = refl; tail = refl; distinct = tt })
            | inr other ↦ rw other (
                Frame-Holds q (w d) f
                  (All-imp (Waits s d) (λ u. NotIn u q) (w d)
                    (λ u i p. NotIn-state s ready waiting u q (λ b. cc) p.0 k.are_ready)
                    (k.are_waiting d))
                  (k.on_wait d))
          ];
          are_ready =
              All-append (λ u. set_all (w c) ready s.state u ≡ ready) q (w c)
                (All-imp (λ u. s.state u ≡ ready) _ q (λ u i p. keeps u (awake u p) ∙ p)
                  k.are_ready)
                (All-imp (Waits s c) _ (w c) (λ u i p. wakes u i) (k.are_waiting c));
          are_waiting = λ d. elim (Bool-cases (d == c)) [
            | inl same ↦ rw same tt
            | inr other ↦ rw other (
                All-imp (Waits s d) _ (w d)
                  (λ u i p.
                    let a = other_list s q w c d u k (ground arith) p in
                    (keeps u a ∙ p.0, keeps_cond u a ∙ p.1))
                  (k.are_waiting d))
          ];
          queued = λ u p. elim (In-cases u (w c)) [
            | inl i ↦ In-right u q (w c) i
            | inr a ↦ In-left u q (w c) (k.queued u (sym (keeps u a) ∙ p))
          ];
          listed = λ u d p r. elim (In-cases u (w c)) [
            | inl i ↦ let bad : ready ≡ waiting = sym (wakes u i) ∙ p in cc
            | inr a ↦
                let was = k.listed u d (sym (keeps u a) ∙ p) (sym (keeps_cond u a) ∙ r) in
                elim (Bool-cases (d == c)) [
                  | inl same ↦ absurd (
                      All-In (λ v. v ≢ u) (w c) u a (subst (λ z. In u (w z)) (ground arith) was)
                        refl)
                  | inr other ↦ rw other was
                ]
          ];
          own = λ u d p r b. elim (In-cases u (w c)) [
            | inl i ↦ let bad : ready ≡ waiting = sym (wakes u i) ∙ p in cc
            | inr a ↦ k.own u d (sym (keeps u a) ∙ p) (sym (keeps_cond u a) ∙ r) b
          ];
          in_table = k.in_table;
          vacant = λ u p. elim (In-cases u (w c)) [
            | inl i ↦ let asleep = (waits_c u i).0 in ground (arith, k.vacant u p)
            | inr a ↦ rw (keeps u a) (k.vacant u p)
          ];
        };
        current = refl;
        thrtab = refl;
        parent = refl;
        others = keeps;
      },
    )

-- A broadcast makes the threads that wait for the condition ready, in the order in which they came
-- and behind those that were ready, and leaves no thread waiting for it.
pub condition_broadcast-Woken :
    (k c : ℕ) (s : Sched) (q : List ℕ) (w : ℕ → List ℕ)
    → Core s q w
    → length (w c) < k
    → (s' : Sched) × (condition_broadcast k c s ≡ some s') × Woken c s s' q w
unfolding condition_broadcast
condition_broadcast-Woken k c s q w core h = elim (Bool-cases (tlempty (s.wait_list c))) [
  | inl empty ↦
      let nobody = Holds-tlempty s.next (s.wait_list c) (w c) (core.on_wait c) empty in
      (
        s,
        rw empty refl,
        record {
          core =
              subst (λ v. Core s (q ++ w c) v) (unchanged w c nobody)
                (subst (λ v. Core s v w) (sym (ap (λ v. q ++ v) nobody ∙ append-nil q)) core);
          current = refl;
          thrtab = refl;
          parent = refl;
          others = λ u a. refl;
        },
      )
  | inr some_wait ↦
      let list = core.on_wait c in
      let marked =
        mark_ready-set_all k c s (s.wait_list c).head (w c) list.chain list.distinct
          (core.are_waiting c) h in
      let (s', e, woken) = append_waiting-Woken s q w c core in
      (s', rw (some_wait, marked, e) refl, woken)
]
