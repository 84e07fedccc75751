-- ===== src/Pid/Tasks/Moved.antt =====
-- `transfer_pid` keeps the lists in agreement with the pids of the tasks.
use linux_kernel_code_projec.Base.{
  ℕ, ◌≡◌, ◌≢◌, ◌⊎◌, sym, ◌∙◌, ap, inl, inr, true, false, ◌&&◌, ◌||◌, not, some, ◌==◌, arith,
  if◌then◌else◌, Bool-cases, ==_eq, ==_self, ==_ne,
}
use linux_kernel_code_projec.Base.Run.{◌>>=◌, Returns}
use linux_kernel_code_projec.Store.{PidRef}
use linux_kernel_code_projec.Pid.Tasks.{
  TaskId, pidtype_pid, Tasks, task_pid_of, set_tasks, has, hlist_replace, transfer_pid,
}
use linux_kernel_code_projec.Pid.Tasks.Linked.{IsLinked, IsUnlinked, has-hlist_replace}

module _ (t new : TaskId) (type : ℕ) (p : PidRef) (w : Tasks)
    (has_pid : task_pid_of t type w ≡ some p) (here : has t (w.tasks p type) ≡ true)
    (free : IsUnlinked new type w) (i : IsLinked w) where
  -- Who is in the lists then: the new task in place of the old one, and the others.
  has-replaced :
      (u : TaskId) (q : PidRef) (k : ℕ)
      → has u ((set_tasks p type (hlist_replace t new (w.tasks p type)) w).tasks q k) ≡ true
      → ((u ≡ new) × (q ≡ p) × (k ≡ type)) ⊎ ((has u (w.tasks q k) ≡ true) × ((k ≡ type) → u ≢ t))
  has-replaced u q k there = elim (Bool-cases (q == p && k == type)) [
    | inl y ↦
        let same : q ≡ p = ==_eq q p (ground arith) in
        let same' : k ≡ type = ==_eq k type (ground arith) in
        let there' : (has u (w.tasks p type) && not (u == t) || u == new && has t (w.tasks p type))
            ≡ true =
          rw (← has-hlist_replace t new u (w.tasks p type)) (rw y at there) in
        elim (Bool-cases (u == new)) [
          | inl e ↦ inl (==_eq u new e, same, same')
          | inr e ↦
              let old : has u (w.tasks p type) ≡ true = ground arith in
              inr (
                rw (same, same') old,
                λ _ a. let is_t : (u == t) ≡ true = rw (a, ==_self t) in ground arith,
              )
        ]
    | inr n ↦
        let old = rw n at there in
        inr (
          old,
          λ e a.
              let pid_q : task_pid_of t type w ≡ some q = rw (← a, ← e) (i.linked u q k old) in
              let same : q ≡ p = cc in
              let y : (q == p && k == type) ≡ true = rw (same, e, ==_self p, ==_self type) in cc,
        )
  ]

  replaced-leader :
      (u v : TaskId) (q r : PidRef) (k : ℕ)
      → has u ((set_tasks p type (hlist_replace t new (w.tasks p type)) w).tasks q k) ≡ true
      → has v ((set_tasks p type (hlist_replace t new (w.tasks p type)) w).tasks r k) ≡ true
      → (k == pidtype_pid) ≡ false
      → w.signal u ≡ w.signal v
      → ((type == pidtype_pid) ≡ false → w.signal t ≡ w.signal new)
      → u ≡ v
  replaced-leader u v q r k there there' other same same_signal = elim (has-replaced u q k there) [
    | inl (a, b, c) ↦ elim (has-replaced v r k there') [
      | inl (a', _, _) ↦ a ∙ sym a'
      | inr (old, apart) ↦ absurd (
          apart c (
            sym (
              i.leader t v p r type here (rw c at old) (rw c at other)
                (same_signal (rw c at other) ∙ ap w.signal (sym a) ∙ same))))
    ]
    | inr (old, apart) ↦ elim (has-replaced v r k there') [
      | inl (a, _, c) ↦ absurd (
          apart c (
            sym (
              i.leader t u p q type here (rw c at old) (rw c at other)
                (same_signal (rw c at other) ∙ ap w.signal (sym a) ∙ sym same))))
      | inr (old', _) ↦ i.leader u v q r k old old' other same
    ]
  ]

  pub transfer_pid-IsLinked :
      ((type == pidtype_pid) ≡ false → w.signal t ≡ w.signal new)
      → Returns (transfer_pid t new type w) IsLinked
  unfolding transfer_pid task_pid_of
  transfer_pid-IsLinked same_signal = elim (Bool-cases (type == pidtype_pid)) [
    | inl z ↦ (
      set_tasks p type (hlist_replace t new (w.tasks p type))
          (record w { thread_pid = λ u. if u == new then w.thread_pid t else w.thread_pid u }),
      rw (has_pid, ◌>>=◌, z),
      record {
        linked = λ u q k there. elim (has-replaced u q k there) [
          | inl (a, b, c) ↦ let old_pid = rw z at has_pid in rw (a, b, c, z, ==_self new) old_pid
          | inr (old, apart) ↦ elim (Bool-cases (k == pidtype_pid)) [
            | inr n ↦ let l = rw n at (i.linked u q k old) in rw n l
            | inl y ↦
                let same : k ≡ type = ==_eq k pidtype_pid y ∙ sym (==_eq type pidtype_pid z) in
                let others : (u == new) ≡ false = ==_ne u new (λ a.
                  let gone = free q in
                  let old' : has new (w.tasks q type) ≡ true = rw (← a, ← same) old in cc) in
                let l = rw y at (i.linked u q k old) in rw (y, others) l
          ]
        ];
        leader = λ u v q r k there there' other same.
            replaced-leader u v q r k there there' other same same_signal;
      },
    )
    | inr z ↦ (
      set_tasks p type (hlist_replace t new (w.tasks p type)) w,
      rw (has_pid, ◌>>=◌, z),
      record {
        linked = λ u q k there. elim (has-replaced u q k there) [
          | inl (a, b, c) ↦
              let old_pid = rw z at has_pid in rw (a, b, c, z, ← same_signal z) old_pid
          | inr (old, apart) ↦ i.linked u q k old
        ];
        leader = λ u v q r k there there' other same.
            replaced-leader u v q r k there there' other same same_signal;
      },
    )
  ]
