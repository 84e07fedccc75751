-- ===== src/Spu/Activate/Nodes.antt =====
-- The loop over the nodes reaches every node.
use linux_kernel_code_projec.Base.{
  ℕ, zero, suc, ◌+◌, ◌<◌, ◌≤◌, ◌≡◌, ◌⊎◌, inl, inr, Bool, true, Option, none, some, ◌==◌, ltb, arith,
  if◌then◌else◌, Bool-cases, Option-cases, ==_eq,
}
use linux_kernel_code_projec.Spu.Activate.{over_nodes}

module _ {A : Type 0} (max_numnodes : ℕ) (ok : ℕ → Bool) (f : ℕ → Option A) where
  pub over_nodes-some :
      (n node m : ℕ) (a : A)
      → over_nodes max_numnodes ok f n node ≡ some (m, a)
      → (ok m ≡ true) × (f m ≡ some a)
  unfolding over_nodes
  over_nodes-some zero node m a e = cc
  over_nodes-some (suc n) node m a e =
      let w = if ltb node max_numnodes then node else 0 in
      elim (Bool-cases (ok w)) [
        | inr bar ↦ over_nodes-some n (w + 1) m a (rw bar at e)
        | inl may ↦ elim (Option-cases (f w)) [
          | inl off ↦ over_nodes-some n (w + 1) m a (rw (may, off) at e)
          | inr (b, at) ↦
              let e' : some (w, b) ≡ some (m, a) = rw (may, at) at e in
              let same : w ≡ m = cc in
              (rw (← same) may, let here : f w ≡ some a = cc in rw (← same) here)
        ]
      ]

  -- `n` nodes from `node` on, round the end
  pub over_nodes-none :
      (n node m : ℕ)
      → over_nodes max_numnodes ok f n node ≡ none
      → node ≤ max_numnodes
      → m < max_numnodes
      → ((node ≤ m) × (m < node + n)) ⊎ (m + max_numnodes < node + n)
      → ok m ≡ true
      → f m ≡ none
  unfolding over_nodes
  over_nodes-none zero node m e le lt near may = absurd (ground arith)
  over_nodes-none (suc n) node m e le lt near may =
      let w = if ltb node max_numnodes then node else 0 in
      let low : w + 1 ≤ max_numnodes = ground arith in
      elim (Bool-cases (m == w)) [
        | inl y ↦
            let same = ==_eq m w y in
            let may' : ok w ≡ true = rw (← same) may in
            elim (Option-cases (f w)) [
              | inl off ↦ rw same off
              | inr (b, at) ↦ let e' = rw (may', at) at e in cc
            ]
        | inr apart ↦
            let rest : over_nodes max_numnodes ok f n (w + 1) ≡ none = elim (Bool-cases (ok w)) [
              | inr bar ↦ rw bar at e
              | inl may' ↦ elim (Option-cases (f w)) [
                | inl off ↦ rw (may', off) at e
                | inr (b, at) ↦ let e' = rw (may', at) at e in cc
              ]
            ] in
            over_nodes-none n (w + 1) m rest low lt (ground arith) may
      ]
