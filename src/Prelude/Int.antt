-- ===== src/Prelude/Int.antt =====
-- The integers that a number of the source takes where it may be negative, with the order tests.
use elder_interview_ai.Prelude.Tests.{if◌then◌else◌, eqb, leb, ltb}
use Prim.Native.Nat.{ℕ, zero, suc, ◌^◌}
use mathlib.Core.Path.{◌≡◌, refl}
use mathlib.Core.Logic.{◌↔◌}
use mathlib.Core.Bool.{Bool, true, false}
use native.Mathlib.Omega.{arith}

-- `negsuc n` is -(n + 1).
pub data ℤ : Type 0 where
  pos : ℕ → ℤ
  negsuc : ℕ → ℤ

abbrev pub succ : ℤ → ℤ
succ (pos n) = pos (suc n)
succ (negsuc zero) = pos 0
succ (negsuc (suc n)) = negsuc n

abbrev pub eqb_ℤ : ℤ → ℤ → Bool
eqb_ℤ (pos a) (pos b) = eqb a b
eqb_ℤ (negsuc a) (negsuc b) = eqb a b
eqb_ℤ _ _ = false

abbrev pub leb_ℤ : ℤ → ℤ → Bool
leb_ℤ (pos a) (pos b) = leb a b
leb_ℤ (pos a) (negsuc b) = false
leb_ℤ (negsuc a) (pos b) = true
leb_ℤ (negsuc a) (negsuc b) = leb b a

pub eqb_ℤ_iff : (a b : ℤ) → (eqb_ℤ a b ≡ true) ↔ (a ≡ b)
eqb_ℤ_iff a b = ground arith

pub not-leb_ℤ-succ : (a : ℤ) → leb_ℤ (succ a) a ≡ false
not-leb_ℤ-succ (pos n) = ground arith
not-leb_ℤ-succ (negsuc zero) = refl
not-leb_ℤ-succ (negsuc (suc n)) = ground arith

pub leb_ℤ_refl : (a : ℤ) → leb_ℤ a a ≡ true
leb_ℤ_refl a = ground arith

pub leb_ℤ_trans : (a b c : ℤ) → leb_ℤ a b ≡ true → leb_ℤ b c ≡ true → leb_ℤ a c ≡ true
leb_ℤ_trans a b c p q = ground arith

pub leb_ℤ-succ : (a : ℤ) → leb_ℤ a (succ a) ≡ true
leb_ℤ-succ (pos n) = ground arith
leb_ℤ-succ (negsuc zero) = refl
leb_ℤ-succ (negsuc (suc n)) = ground arith

pub ne-succ_of_le : (a b : ℤ) → leb_ℤ a b ≡ true → eqb_ℤ a (succ b) ≡ false
ne-succ_of_le a (pos n) h = ground arith
ne-succ_of_le a (negsuc zero) h = ground arith
ne-succ_of_le a (negsuc (suc n)) h = ground arith

abbrev pub max_ℤ : ℤ → ℤ → ℤ
max_ℤ a b = if leb_ℤ a b then b else a

-- `n - 1`, for a number that is not negative.
abbrev pub pred : ℕ → ℤ
pred zero = negsuc 0
pred (suc n) = pos n

abbrev pub is_negative : ℤ → Bool
is_negative (pos n) = false
is_negative (negsuc n) = true

-- The natural number that a number is, once it is known not to be negative.
abbrev pub natural : ℤ → ℕ
natural (pos n) = n
natural (negsuc n) = 0

-- `Number.isSafeInteger`, for an integer.
abbrev pub is_safe_integer : ℤ → Bool
is_safe_integer (pos n) = ltb n (2 ^ 53)
is_safe_integer (negsuc n) = ltb (suc n) (2 ^ 53)
