-- ===== src/Sequencer/Window.antt =====
-- Positions in the circular buffer of src/agent.cpp and the sequence numbers behind them.
use cppagent.Base.{ℕ, ◌+◌, ◌-◌, ◌*◌, ◌/◌, ◌%◌, ◌≤◌, ◌<◌, ◌≡◌, ◌⊎◌, inl, inr, arith, ◌≢◌, ap, dec_lt}
use native.Mathlib.Nat.{div-add-mod', mod-lt, add-mul-mod_self_right}

pub mul_gap : (a b n : ℕ) → a < b → a * n + n ≤ b * n
mul_gap a b n h = grind arith

-- Within one lap of the buffer the position grows with the sequence number, from one lap to the next
-- it falls.
pub lap_cases :
    (n f s : ℕ)
    → 0 < n
    → f ≤ s
    → s < f + n
    → ((f % n ≤ s % n) × (s - f ≡ s % n - f % n)) ⊎ ((s % n < f % n) × (f / n < s / n))
lap_cases n f s h le lt = elim (dec_lt (f / n) (s / n)) [
  | yes p ↦ inr (omega (arith, div-add-mod' f n, div-add-mod' s n, mul_gap (f / n) (s / n) n p), p)
  | no p ↦ elim (dec_lt (s / n) (f / n)) [
    | yes q ↦
        absurd (
          omega
            (arith, div-add-mod' f n, div-add-mod' s n, mod-lt s h, mul_gap (s / n) (f / n) n q))
    | no q ↦
        let e : f / n ≡ s / n = omega arith in
        let same : f / n * n ≡ s / n * n = ap (λ (k : ℕ). k * n) e in
        inl (
          omega (arith, div-add-mod' f n, div-add-mod' s n, same),
          omega (arith, div-add-mod' f n, div-add-mod' s n, same),
        )
  ]
]

-- Two sequence numbers less than a lap apart have different positions.
pub position_ne : (n s t : ℕ) → 0 < n → s < t → t < s + n → s % n ≢ t % n
position_ne n s t h lt le e = elim (lap_cases n s t h (omega arith) le) [
  | inl a ↦ omega arith
  | inr b ↦ omega arith
]

-- The positions of a lap, one by one.
pub position_step : (n s q i : ℕ) → s ≡ i + q * n → s % n ≡ i % n
position_step n s q i e = rw (e, add-mul-mod_self_right i q n)
