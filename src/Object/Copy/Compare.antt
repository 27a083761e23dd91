-- ===== src/Object/Copy/Compare.antt =====
-- src/rpc_object.c: which objects rpc_cmp finds no difference between.
use librpc.Base.{
  ℕ, zero, suc, Bool, true, false, if◌then◌else◌, fault, overflow, ◌%◌, ◌^◌, ◌≡◌, refl, ap, ◌∙◌, ok,
  arith, ◌↔◌,
}
use librpc.Base.Int.{ℤ, pos, negsuc, ◌-ℤ◌, to_int32, is_int32}
use librpc.Object.Platform.{Platform}
use librpc.Object.Types.{Object}
use librpc.Object.Copy.{hash, cmp}

-ℤ-zero : (i j : ℤ) → i -ℤ j ≡ pos 0 → i ≡ j
unfolding ◌-ℤ◌
-ℤ-zero (pos a) (pos zero) h = ground (arith, h)
-ℤ-zero (pos a) (pos (suc b)) h = ground (arith, h)
-ℤ-zero (pos a) (negsuc b) h = ground (arith, h)
-ℤ-zero (negsuc a) (pos zero) h = ground (arith, h)
-ℤ-zero (negsuc a) (pos (suc b)) h = ground (arith, h)
-ℤ-zero (negsuc a) (negsuc b) h = ground (arith, h)

-ℤ-same : (i : ℤ) → i -ℤ i ≡ pos 0
unfolding ◌-ℤ◌
-ℤ-same (pos zero) = ground arith
-ℤ-same (pos (suc a)) = ground arith
-ℤ-same (negsuc a) = ground arith

to_int32_lem : (a b : ℕ) → to_int32 a ≡ to_int32 b → a % 2 ^ 32 ≡ b % 2 ^ 32
to_int32_lem a b h = ground (arith, h)

int32_same : (a b : ℕ) → a % 2 ^ 32 ≡ b % 2 ^ 32 → to_int32 a ≡ to_int32 b
int32_same a b h = ground (arith, h)

-- The difference of two ints, where C has it.
checked_zero : (d : ℤ) → ((if is_int32 d then ok d else fault overflow) ≡ ok (pos 0)) ↔ (d ≡ pos 0)
checked_zero d = (checked_inverse d (is_int32 d), λ h. rw h refl)
  where
    checked_inverse :
        (d : ℤ) (b : Bool) → (if b then ok d else fault overflow) ≡ ok (pos 0) → d ≡ pos 0
    checked_inverse d true h = cc
    checked_inverse d false h = cc

-- Of two objects that have hashes, rpc_cmp is 0 exactly if the hashes agree in their low 32 bits.
pub cmp_zero :
    (p : Platform) (o1 o2 : Object) (h1 h2 : ℕ)
    → hash p o1 ≡ ok h1
    → hash p o2 ≡ ok h2
    → (cmp p o1 o2 ≡ ok (pos 0)) ↔ (h1 % 2 ^ 32 ≡ h2 % 2 ^ 32)
unfolding cmp
cmp_zero p o1 o2 h1 h2 e1 e2 =
    rw (e1, e2)
      (
        (λ z. to_int32_lem h1 h2 (
            -ℤ-zero (to_int32 h1) (to_int32 h2) ((checked_zero (to_int32 h1 -ℤ to_int32 h2)).0 z))),
        (λ s.
            (checked_zero (to_int32 h1 -ℤ to_int32 h2)).1
              (ap (λ (i : ℤ). i -ℤ to_int32 h2) (int32_same h1 h2 s) ∙ -ℤ-same (to_int32 h2))),
      )
