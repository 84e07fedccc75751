-- ===== src/Skiplist/Shares.antt =====
-- How many random numbers give a level: the loop of `pid_sl_random_level` drops four bits a round.
use linux_kernel_code_projec.Base.{
  ℕ, zero, suc, ◌+◌, ◌*◌, ◌/◌, ◌%◌, ◌^◌, ◌≤◌, ◌<◌, ◌≡◌, sym, ap, ◌∙◌, inl, inr, false, Bool-cases,
  ltb, ◌==◌, arith, if◌then◌else◌,
}
use native.Mathlib.Nat.{
  div-mul-le_self, mod-lt, div-add-mod, div-div-eq-div-mul, div-eq_of_lt, pow-succ', mul_left_comm,
  pow-le-pow_right,
}
use linux_kernel_code_projec.Skiplist.{random_level, random_level_loop}
use linux_kernel_code_projec.Skiplist.Level.{random_level_loop_bounds}

-- Division by 16 and then by 16 ^ n leaves nothing if division by 16 ^ (n + 1) does.
multiple :
    (n random : ℕ)
    → (random / 16 ^ suc n * 16 ^ suc n == random)
      ≡ (if random % 16 == 0 then random / 16 / 16 ^ n * 16 ^ n == random / 16 else false)
multiple n random =
    let p = 16 ^ n in
    let q = random / 16 in
    let y = q / p * p in
    let split = div-add-mod random 16 in
    let rest : random % 16 < 16 = mod-lt random (omega arith) in
    let low : y ≤ q = div-mul-le_self q p in
    let same : random / 16 / 16 ^ n ≡ random / (16 * 16 ^ n) =
      div-div-eq-div-mul random 16 (16 ^ n) in
    let power : 16 ^ suc n ≡ 16 * 16 ^ n = pow-succ' 16 n in
    let times : random / (16 * 16 ^ n) * (16 * 16 ^ n) ≡ 16 * y =
      mul_left_comm (random / (16 * 16 ^ n)) 16 (16 ^ n) ∙ ap (λ d. 16 * (d * 16 ^ n)) (sym same) in
    rw (power, times) (ground (arith, split, rest, low))

random_level_loop-above :
    (n level k random : ℕ)
    → k < n
    → ltb (level + k) (random_level_loop n level random)
      ≡ (random / 16 ^ suc k * 16 ^ suc k == random)
unfolding random_level_loop
random_level_loop-above zero level k random lt = absurd (omega arith)
random_level_loop-above (suc n) level zero random lt =
    let (low, _) = random_level_loop_bounds n (level + 1) (random / 16) in
    rw (multiple 0 random) (ground (arith, low))
random_level_loop-above (suc n) level (suc k) random lt =
    let rest = random_level_loop-above n (level + 1) k (random / 16) (omega arith) in
    let sum : level + 1 + k ≡ level + suc k = omega arith in
    let rest' = rw sum at rest in
    rw (multiple (suc k) random)
      (elim (Bool-cases (random % 16 == 0)) [ inl y ↦ rw y rest' | inr m ↦ rw m (ground arith) ])

-- For a number of 32 bits the random level is above n, from 1 to 7, exactly if the number is a
-- multiple of 16 to the power n, and above n, from 8 to 15, exactly if the number is 0.
pub random_level-above :
    (n random : ℕ)
    → 0 < n
    → n < 16
    → random < 2 ^ 32
    → ltb n (random_level random)
      ≡ (if ltb n 8 then random / 16 ^ n * 16 ^ n == random else random == 0)
unfolding random_level
random_level-above zero random pos lt small = absurd (omega arith)
random_level-above (suc k) random pos lt small =
    let at = random_level_loop-above 15 1 k random (omega arith) in
    let sum : 1 + k ≡ suc k = omega arith in
    let at' = rw sum at at in
    elim (Bool-cases (ltb (suc k) 8)) [
      | inl y ↦ rw y at'
      | inr m ↦
          let high : 8 ≤ suc k = ground arith in
          let power : 16 ^ 8 ≤ 16 ^ suc k = pow-le-pow_right (omega arith) high in
          let none_left : random / 16 ^ suc k ≡ 0 = div-eq_of_lt (omega arith) in
          rw m (at' ∙ rw none_left (ground arith))
    ]
