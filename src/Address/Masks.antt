-- ===== src/Address/Masks.antt =====
-- The masks of prefixes, which are not what they should be.
use native.Mathlib.Nat.{pow-suc}
use link_server.Base.{subst, ℕ, ◌+◌, ◌-◌, ◌^◌, ◌≤◌, ◌≡◌, ◌≢◌, arith, zero, suc}
use link_server.Address.{create_mask}

two_pow_le : (j k : ℕ) → 2 ^ j ≤ 2 ^ (j + k)
two_pow_le j zero = let e : j + 0 ≡ j = omega arith in rw e (omega arith)
two_pow_le j (suc k) =
    let e : j + suc k ≡ suc (j + k) = omega arith in
    let ih = two_pow_le j k in rw (e, pow-suc 2 (j + k)) (omega (arith, ih))

-- For prefixes of 2 to 32 bits the mask is two less than the ones in front of zeros that it should be.
pub create_mask_lem :
    (bits : ℕ)
    → 2 ≤ bits
    → bits ≤ 32
    → (create_mask 32 bits + 2 ≡ 2 ^ 32 - 2 ^ (32 - bits))
      × (create_mask 32 bits ≢ 2 ^ 32 - 2 ^ (32 - bits))
unfolding create_mask
create_mask_lem bits h k =
    let small : 2 ^ (32 - bits) ≤ 2 ^ 30 =
      let e : (32 - bits) + (bits - 2) ≡ 30 = omega (arith, h, k) in
      subst (λ n. 2 ^ (32 - bits) ≤ 2 ^ n) e (two_pow_le (32 - bits) (bits - 2)) in
    (omega (arith, small), λ e. omega (arith, small, e))
