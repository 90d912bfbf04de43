-- ===== src/Base/Int.antt =====
-- Go's `int`, and the conversions to unsigned words, which keep the low bits.
use Prim.Native.Nat.{ℕ, ◌-◌, ◌%◌, ◌<◌}
use mathlib.Core.Path.{◌≡◌, refl}
use mathlib.Core.Logic.{◌↔◌}
use mathlib.Core.Bool.{Bool, true, false}
use native.Mathlib.Omega.{arith}
use kube_loxilb.Base.Tests.{Eq, ◌==◌, if◌then◌else◌, ltb, nat_eq}

-- `negsuc n` is -(n + 1).
pub data ℤ : Type 0 where
  pos : ℕ → ℤ
  negsuc : ℕ → ℤ

abbrev int_beq : ℤ → ℤ → Bool
int_beq (pos a) (pos b) = a == b
int_beq (negsuc a) (negsuc b) = a == b
int_beq _ _ = false

pub int_beq_iff : (a b : ℤ) → (int_beq a b ≡ true) ↔ (a ≡ b)
int_beq_iff a b = ground arith

instance abbrev pub int_eq : Eq ℤ
int_eq = record { equal = int_beq; equal_iff = int_beq_iff }

-- uint16(z) and uint32(z).
unfoldable pub to_u16 : ℤ → ℕ
to_u16 (pos n) = n % 65536
to_u16 (negsuc n) = 65535 - n % 65536

unfoldable pub to_u32 : ℤ → ℕ
to_u32 (pos n) = n % 4294967296
to_u32 (negsuc n) = 4294967295 - n % 4294967296

-- int32(z): the low 32 bits, read with a sign.
signed : ℕ → ℤ
signed u = if ltb u 2147483648 then pos u else negsuc (4294967295 - u)

unfoldable pub to_i32 : ℤ → ℤ
unfolding signed to_u32
to_i32 z = signed (to_u32 z)

to_i32_examples :
    (to_i32 (pos 7) ≡ pos 7)
    × (to_i32 (negsuc 0) ≡ negsuc 0)
    × (to_i32 (pos 2147483648) ≡ negsuc 2147483647)
unfolding to_i32
to_i32_examples = (refl, refl, refl)

-- The low half of a word decides the narrower conversion.
pub to_u16-lt : (z : ℤ) → to_u16 z < 65536
unfolding to_u16
to_u16-lt (pos n) = omega arith
to_u16-lt (negsuc n) = omega arith

-- A number survives the conversion exactly when it is in range.
pub to_u16_exact : (z : ℤ) → (z ≡ pos (to_u16 z)) ↔ ((n : ℕ) × (z ≡ pos n) × (n < 65536))
unfolding to_u16
to_u16_exact (pos n) = (λ h. (n, refl, ground arith), λ h. ground arith)
to_u16_exact (negsuc n) = (λ h. cc, λ h. cc)
