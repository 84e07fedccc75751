-- ===== src/Pid/Tasks/Linked.antt =====
-- The lists of the tasks agree with the pids that the tasks have.
use linux_kernel_code_projec.Base.{
  ℕ, ◌≡◌, ◌≢◌, ◌⊎◌, refl, sym, ◌∙◌, ap, inl, inr, true, false, ◌&&◌, ◌||◌, not, Option, some, List,
  [], ◌∷◌, ◌==◌, arith, if◌then◌else◌, Bool-cases, ==_eq, ==_self, ==_ne,
}
use linux_kernel_code_projec.Base.Run.{Returns}
use linux_kernel_code_projec.Store.{PidRef}
use linux_kernel_code_projec.Pid.Tasks.{
  TaskId, pidtype_pid, Tasks, task_pid_of, set_task_pid, set_tasks, has, hlist_del, hlist_replace,
  attach_pid,
}

pub has-hlist_del :
    (t u : TaskId) (us : List TaskId) → has u (hlist_del t us) ≡ (has u us && not (u == t))
has-hlist_del t u [] = refl
has-hlist_del t u (v ∷ us) = ground (arith, has-hlist_del t u us)

pub has-hlist_replace :
    (old new u : TaskId) (us : List TaskId)
    → has u (hlist_replace old new us) ≡ (has u us && not (u == old) || u == new && has old us)
has-hlist_replace old new u [] = ground arith
has-hlist_replace old new u (v ∷ us) = ground (arith, has-hlist_replace old new u us)

-- A task in a list has the pid of the list, and of the tasks in the lists of one type other than
-- PIDTYPE_PID, at most one has a given signal struct: the leader of its thread group.
pub record IsLinked (w : Tasks) : Type 0 where
  pub linked :
      (t : TaskId) (p : PidRef) (type : ℕ)
      → has t (w.tasks p type) ≡ true
      → task_pid_of t type w ≡ some p
  pub leader :
      (t u : TaskId) (p q : PidRef) (type : ℕ)
      → has t (w.tasks p type) ≡ true
      → has u (w.tasks q type) ≡ true
      → (type == pidtype_pid) ≡ false
      → w.signal t ≡ w.signal u
      → t ≡ u

-- The task is in no list of the type.
abbrev pub IsUnlinked : TaskId → ℕ → Tasks → Type 0
IsUnlinked t type w = (p : PidRef) → has t (w.tasks p type) ≡ false

-- Nor is another one with its signal struct.
abbrev pub IsAlone : TaskId → ℕ → Tasks → Type 0
IsAlone t type w =
    (type == pidtype_pid) ≡ false
    → (u : TaskId) (p : PidRef) → has u (w.tasks p type) ≡ true
    → w.signal u ≢ w.signal t

task_pid_of-set_task_pid :
    (t u : TaskId) (type k : ℕ) (new : Option PidRef) (w : Tasks)
    → task_pid_of u k (set_task_pid t type new w) ≡ (
        if k == type && (if type == pidtype_pid then u == t else w.signal u == w.signal t)
        then new
        else task_pid_of u k w)
unfolding task_pid_of set_task_pid
task_pid_of-set_task_pid t u type k new w = ground arith

tasks-set_task_pid :
    (t : TaskId) (type : ℕ) (new : Option PidRef) (w : Tasks) (q : PidRef) (k : ℕ)
    → (set_task_pid t type new w).tasks q k ≡ w.tasks q k
unfolding set_task_pid
tasks-set_task_pid t type new w q k = ground arith

signal-set_task_pid :
    (t u : TaskId) (type : ℕ) (new : Option PidRef) (w : Tasks)
    → (set_task_pid t type new w).signal u ≡ w.signal u
unfolding set_task_pid
signal-set_task_pid t u type new w = ground arith

-- Who is in the lists once a task is put in front of one.
has-cons :
    (t u : TaskId) (p q : PidRef) (type k : ℕ) (w : Tasks)
    → has u ((set_tasks p type (t ∷ w.tasks p type) w).tasks q k) ≡ true
    → ((u ≡ t) × (q ≡ p) × (k ≡ type)) ⊎ (has u (w.tasks q k) ≡ true)
has-cons t u p q type k w here = elim (Bool-cases (q == p && k == type)) [
  | inr n ↦ inr (rw n at here)
  | inl y ↦
      let same : q ≡ p = ==_eq q p (ground arith) in
      let same' : k ≡ type = ==_eq k type (ground arith) in
      let here' : (u == t || has u (w.tasks p type)) ≡ true = rw y at here in
      elim (Bool-cases (u == t)) [
        | inl e ↦ inl (==_eq u t e, same, same')
        | inr e ↦ let old = rw e at here' in inr (rw (same, same') old)
      ]
]

pub attach_pid-IsLinked :
    (t : TaskId) (type : ℕ) (p : PidRef) (w : Tasks)
    → task_pid_of t type w ≡ some p
    → IsUnlinked t type w
    → IsAlone t type w
    → IsLinked w
    → Returns (attach_pid t type w) IsLinked
unfolding attach_pid task_pid_of
attach_pid-IsLinked t type p w has_pid free alone i = (
  set_tasks p type (t ∷ w.tasks p type) w,
  rw has_pid,
  record {
    linked = λ u q k here. elim (has-cons t u p q type k w here) [
      | inr old ↦ i.linked u q k old
      | inl (a, b, c) ↦ rw (a, b, c) has_pid
    ];
    leader = λ u v q r k here there other same. elim (has-cons t u p q type k w here) [
      | inl (a, b, c) ↦ elim (has-cons t v p r type k w there) [
        | inl (a', _, _) ↦ a ∙ sym a'
        | inr old ↦ absurd (alone (rw c at other) v r (rw c at old) (sym same ∙ ap w.signal a))
      ]
      | inr old ↦ elim (has-cons t v p r type k w there) [
        | inl (a', _, c) ↦ absurd (alone (rw c at other) u q (rw c at old) (same ∙ ap w.signal a'))
        | inr old' ↦ i.leader u v q r k old old' other same
      ]
    ];
  },
)

-- The first steps of `__change_pid`: the task leaves its list and gets another pid.
abbrev pub unlinked : TaskId → ℕ → PidRef → Option PidRef → Tasks → Tasks
unlinked t type p new w =
    set_task_pid t type new (set_tasks p type (hlist_del t (w.tasks p type)) w)

module _ (t : TaskId) (type : ℕ) (p : PidRef) (new : Option PidRef) (w : Tasks)
    (has_pid : task_pid_of t type w ≡ some p) (here : has t (w.tasks p type) ≡ true)
    (i : IsLinked w) where
  -- Who is in the lists then: the others.
  has-unlinked :
      (u : TaskId) (q : PidRef) (k : ℕ)
      → has u ((unlinked t type p new w).tasks q k) ≡ true
      → (has u (w.tasks q k) ≡ true) × ((k ≡ type) → u ≢ t)
  has-unlinked u q k there =
      let there' : has u ((set_tasks p type (hlist_del t (w.tasks p type)) w).tasks q k) ≡ true =
        rw (← tasks-set_task_pid t type new (set_tasks p type (hlist_del t (w.tasks p type)) w) q k)
          there in
      elim (Bool-cases (q == p && k == type)) [
        | inl y ↦
            let same : q ≡ p = ==_eq q p (ground arith) in
            let same' : k ≡ type = ==_eq k type (ground arith) in
            let both : (has u (w.tasks p type) && not (u == t)) ≡ true =
              rw (← has-hlist_del t u (w.tasks p type)) (rw y at there') in
            let old : has u (w.tasks p type) ≡ true = ground arith in
            (
              rw (same, same') old,
              λ e a. let is_t : (u == t) ≡ true = rw (a, ==_self t) in ground arith,
            )
        | inr n ↦
            let old = rw n at there' in
            (
              old,
              λ e a.
                  let pid_q : task_pid_of t type w ≡ some q = rw (← a, ← e) (i.linked u q k old) in
                  let same : q ≡ p = cc in
                  let y : (q == p && k == type) ≡ true = rw (same, e, ==_self p, ==_self type) in
                  cc,
            )
      ]

  untouched :
      (u : TaskId) (q : PidRef) (k : ℕ)
      → has u (w.tasks q k) ≡ true
      → ((k ≡ type) → u ≢ t)
      → (k == type && (if type == pidtype_pid then u == t else w.signal u == w.signal t)) ≡ false
  untouched u q k old apart = elim (Bool-cases (k == type)) [
    | inr n ↦ rw n
    | inl y ↦
        let e = ==_eq k type y in
        elim (Bool-cases (type == pidtype_pid)) [
          | inl z ↦ rw (y, z, ==_ne u t (apart e))
          | inr z ↦ rw (
            y,
            z,
            ==_ne (w.signal u) (w.signal t)
                (λ same. apart e (i.leader u t q p type (rw e at old) here z same)),
          )
        ]
  ]

  pub unlinked-IsLinked : IsLinked (unlinked t type p new w)
  unfolding task_pid_of
  unlinked-IsLinked = record {
    linked = λ u q k there.
        let (old, apart) = has-unlinked u q k there in
        let w₁ = set_tasks p type (hlist_del t (w.tasks p type)) w in
        let others : (k == type
              && (if type == pidtype_pid then u == t else w.signal u == w.signal t))
            ≡ false =
          untouched u q k old apart in
        task_pid_of-set_task_pid t u type k new w₁ ∙ rw others (i.linked u q k old);
    leader = λ u v q r k there there' other same.
        let w₁ = set_tasks p type (hlist_del t (w.tasks p type)) w in
        i.leader u v q r k (has-unlinked u q k there).0 (has-unlinked v r k there').0 other
          (sym (signal-set_task_pid t u type new w₁) ∙ same ∙ signal-set_task_pid t v type new w₁);
  }

  pub unlinked-IsUnlinked : IsUnlinked t type (unlinked t type p new w)
  unlinked-IsUnlinked q = elim (Bool-cases (has t ((unlinked t type p new w).tasks q type))) [
    | inr n ↦ n
    | inl y ↦ absurd ((has-unlinked t q type y).1 refl refl)
  ]

  pub unlinked-IsAlone : IsAlone t type (unlinked t type p new w)
  unlinked-IsAlone other u q there same =
      let (old, apart) = has-unlinked u q type there in
      let w₁ = set_tasks p type (hlist_del t (w.tasks p type)) w in
      apart refl (
        i.leader u t q p type old here other
          (sym (signal-set_task_pid t u type new w₁) ∙ same ∙ signal-set_task_pid t t type new w₁))

  pub task_pid_of-unlinked : task_pid_of t type (unlinked t type p new w) ≡ new
  unfolding task_pid_of
  task_pid_of-unlinked =
      task_pid_of-set_task_pid t t type type new (set_tasks p type (hlist_del t (w.tasks p type)) w)
      ∙ ground arith
