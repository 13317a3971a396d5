-- ===== src/Boot/Settings.antt =====
-- Bounds on the boot settings.
use obsidio.Prelude.{
  ℕ, zero, suc, ◌+◌, ◌*◌, ◌/◌, ◌^◌, ◌≤◌, ◌<◌, ◌≡◌, ◌⊎◌, ◌&&◌, ltb→lt, refl, inl, inr, Bool, true,
  false, [], Option, some, arith, Bool-cases, ltb,
}
use native.Mathlib.Nat.{pow-suc, div-add-mod, mod-lt, mul-le-mul_left}
use obsidio.Prelude.Env.{Bytes, ℤ}
use obsidio.Kernel.Chain.{stride_of}
use obsidio.Boot.{risk_slots, grow_stride, yield_stride, yield_mask, x16_min_batch}

-- The process runs between one and four workers, whatever the CPU quota and RISK_SLOTS say.
risk_slots_bounds :
    (quota : Option ℤ) (env : Bytes) → (1 ≤ risk_slots quota env) × (risk_slots quota env ≤ 4)
unfolding risk_slots
risk_slots_bounds quota env = ground arith

-- For every stride of 32 bits the chain loops get back from the yield mask the stride that it was
-- made of, stride 0, which disables yielding, included.
pub stride_of-yield_mask : (stride : ℕ) → stride < 2 ^ 32 → stride_of (yield_mask stride) ≡ stride
unfolding yield_mask
stride_of-yield_mask stride h = ground arith

grow :
    (within : ℕ → Bool) (fuel j : ℕ)
    → j + fuel ≡ 6
    → 0 < fuel
    → (k : ℕ) × (k ≤ 5) × (grow_stride within fuel (256 * 2 ^ j) ≡ some (256 * 2 ^ k))
unfolding grow_stride
grow within zero j e h = absurd (omega arith)
grow within (suc fuel) j e h =
    elim (Bool-cases (ltb (256 * 2 ^ j) 8192 && within (256 * 2 ^ j * 2))) [
      | inr stop ↦ (j, omega arith, rw stop refl)
      | inl go ↦
          let twice : 256 * 2 ^ j * 2 ≡ 256 * 2 ^ suc j = omega (arith, pow-suc 2 j) in
          let (k, le, r) = grow within fuel (suc j) (omega arith) (left fuel j e go) in
          (k, le, rw (go, twice) r)
    ]
  where
    left :
        (fuel j : ℕ)
        → j + suc fuel ≡ 6
        → (ltb (256 * 2 ^ j) 8192 && within (256 * 2 ^ j * 2)) ≡ true
        → 0 < fuel
    left (suc fuel) j e t = omega arith
    left zero j e t =
        let five : j ≡ 5 = omega arith in let no_more : false ≡ true = rw five at t in cc

-- Without RISK_YIELD_STRIDE the loop that grows the stride ends, with a power of two from 256 to
-- 8192, whatever the floating-point comparison says.
pub yield_stride_lem :
    (within : ℕ → Bool) → (k : ℕ) × (k ≤ 5) × (yield_stride within [] ≡ some (256 * 2 ^ k))
unfolding yield_stride
yield_stride_lem within = grow within 6 0 refl (omega arith)

quotient_above : (n m : ℕ) → 0 < m → n < m * (n / m + 1)
quotient_above n m h = omega (arith, div-add-mod n m, mod-lt n h)

-- Where the 16-lane path is enabled it wants between 8 and 16 waiters, and unless that number is 16
-- such a batch costs less than nine tenths of what the displaced path would for as many chains.
pub x16_min_batch_lem :
    (batch displaced : ℕ)
    → (8 ≤ x16_min_batch batch displaced)
      × (x16_min_batch batch displaced ≤ 16)
      × ((x16_min_batch batch displaced ≡ 16)
          ⊎ (batch * 10 < displaced / 16 * 9 * x16_min_batch batch displaced))
unfolding x16_min_batch
x16_min_batch_lem batch displaced = elim (Bool-cases (ltb 0 (displaced / 16))) [
  | inr none_left ↦ rw none_left (omega arith, omega arith, inl refl)
  | inl some_cost ↦
      let m = displaced / 16 * 9 in
      let pos_m : 0 < m = omega (arith, ltb→lt 0 (displaced / 16) some_cost) in
      let enough = quotient_above (batch * 10) m pos_m in
      let more = mul-le-mul_left {m = batch * 10 / m + 1} {n = 8} m in
      rw some_cost (ground (arith, enough, more))
]
