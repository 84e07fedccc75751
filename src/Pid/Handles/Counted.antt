-- ===== src/Pid/Handles/Counted.antt =====
-- The references that `pidfd_open` keeps.
use linux_kernel_code_projec.Base.{
  ℕ, ◌+◌, ◌-◌, ◌<◌, ◌≡◌, refl, inl, inr, Bool, false, ◌&&◌, not, some, ◌==◌, if◌then◌else◌, arith,
  get_elem?, ℤ, pos, Bool-cases, ==_self,
}
use linux_kernel_code_projec.Base.Run.{◌>>=◌, Returns}
use linux_kernel_code_projec.Store.{PidRef}
use linux_kernel_code_projec.PidTable.{TableOps}
use linux_kernel_code_projec.Pid.{NsId, Namespace}
use linux_kernel_code_projec.Pid.Find.{Upid, PidStruct, find_pid_ns}
use linux_kernel_code_projec.Pid.Alloc.{System, set_struct, minus_einval}
use linux_kernel_code_projec.Pid.Free.{put_pid}
use linux_kernel_code_projec.Pid.Handles.{
  is_negative, get_pid, find_get_pid, pidfd_create, open_found, pidfd_open,
}

module _ (T : TableOps) (p : PidRef) where
  get_pid-count :
      (w : System T) (s : PidStruct)
      → w.pids p ≡ some s
      → Returns (get_pid T (some p) w) (λ w₁. w₁.pids p ≡ some (record s { count = s.count + 1 }))
  unfolding get_pid
  get_pid-count w s e =
      (set_struct T p (some (record s { count = s.count + 1 })) w, rw e, rw (==_self p))

  put_pid-count :
      (w : System T) (s : PidStruct) (u : Upid) (c : ℕ)
      → w.pids p ≡ some s
      → get_elem? s.numbers s.level ≡ some u
      → s.count ≡ c + 1
      → 0 < c
      → Returns (put_pid T (some p) w) (λ w₁. w₁.pids p ≡ some (record s { count = c }))
  unfolding put_pid
  put_pid-count w s u c e l q lt =
      let kept : s.count == 1 ≡ false = ground arith in
      let less : s.count - 1 ≡ c = omega arith in
      (
        set_struct T p (some (record s { count = s.count - 1 })) w,
        rw (e, ◌>>=◌, l, ◌>>=◌, kept),
        rw (==_self p, less),
      )

  -- The reference that a handle keeps.
  abbrev pub kept_count : ℤ → (PidRef → Bool) → ℕ → ℕ
  kept_count fd tgid count = if tgid p && not (is_negative fd) then count + 1 else count

  -- Without flags, for a number above 0 at which the namespace of the running task has a pid with
  -- a reference and a number on its own level, `pidfd_open` returns. It gives the descriptor if
  -- the pid leads a thread group and -EINVAL otherwise, and the pid has one reference more exactly
  -- if it leads a thread group and the descriptor is no error.
  pub pidfd_open-count :
      (fd : ℤ) (tgid : PidRef → Bool) (active : NsId) (n : ℕ) (w : System T) (ns : Namespace T)
      (s : PidStruct) (u : Upid)
      → w.spaces active ≡ some ns
      → find_pid_ns T n ns ≡ some (some p)
      → w.pids p ≡ some s
      → get_elem? s.numbers s.level ≡ some u
      → 0 < s.count
      → 0 < n
      → Returns (pidfd_open T fd tgid active (pos n) 0 w) λ r.
        (r.0 ≡ (if tgid p then fd else minus_einval))
        × (r.1.pids p ≡ some (record s { count = kept_count fd tgid s.count }))
  unfolding pidfd_open find_get_pid open_found pidfd_create
  pidfd_open-count fd tgid active n w ns s u at found here l lt pos_n =
      let nonzero : n == 0 ≡ false = ground arith in
      let s₁ = record s { count = s.count + 1 } in
      let s₂ = record s { count = s.count + 1 + 1 } in
      let (w₁, got, c₁) = get_pid-count w s here in
      elim (Bool-cases (tgid p)) [
        | inr q ↦
            let (w₂, put, c₂) = put_pid-count w₁ s₁ u s.count c₁ l refl lt in
            (
              (minus_einval, w₂),
              rw (nonzero, at, ◌>>=◌, found, ◌>>=◌, got, ◌>>=◌, q, ◌>>=◌, put),
              (rw q, rw (q, c₂)),
            )
        | inl y ↦
            let (w₂, got₂, c₂) = get_pid-count w₁ s₁ c₁ in
            elim (Bool-cases (is_negative fd)) [
              | inl neg ↦
                  let (w₃, put, c₃) = put_pid-count w₂ s₂ u (s.count + 1) c₂ l refl (omega arith) in
                  let (w₄, put', c₄) = put_pid-count w₃ s₁ u s.count c₃ l refl lt in
                  (
                    (fd, w₄),
                    rw (
                      nonzero, at, ◌>>=◌, found, ◌>>=◌, got, ◌>>=◌, y, got₂, ◌>>=◌, neg, put, ◌>>=◌,
                      put',
                    ),
                    (rw y, rw (y, neg, c₄)),
                  )
              | inr fine ↦
                  let (w₃, put, c₃) = put_pid-count w₂ s₂ u (s.count + 1) c₂ l refl (omega arith) in
                  (
                    (fd, w₃),
                    rw (nonzero, at, ◌>>=◌, found, ◌>>=◌, got, ◌>>=◌, y, got₂, ◌>>=◌, fine, put),
                    (rw y, rw (y, fine, c₃)),
                  )
            ]
      ]
