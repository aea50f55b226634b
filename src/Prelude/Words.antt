-- ===== src/Prelude/Words.antt =====
-- 32-bit words as numbers below 2 ^ 32, their signed order, and C arrays as updated functions.
use Prim.Native.Nat.{ℕ, ◌+◌, ◌%◌}
use mathlib.Core.Path.{◌≡◌, fun_ext}
use mathlib.Core.Logic.{◌≢◌}
use mathlib.Core.Bool.{Bool}
use native.Mathlib.Omega.{arith}
use lime_os.Prelude.Tests.{ltb, ◌==◌, if◌then◌else◌}

-- The value kept by a uint32_t or int32_t.
abbrev pub u32 : ℕ → ℕ
u32 n = n % 4294967296

abbrev pub u8 : ℕ → ℕ
u8 n = n % 256

-- The bit pattern of the int32_t -1.
abbrev pub minus_one : ℕ
minus_one = 4294967295

-- `a < b` of two int32_t: the order of their patterns with the sign bit flipped.
abbrev pub lt_signed : ℕ → ℕ → Bool
lt_signed a b = ltb (u32 (a + 2147483648)) (u32 (b + 2147483648))

-- `a[i] = v`.
abbrev pub update {ℓ} : {A : Type ℓ} → (ℕ → A) → ℕ → A → ℕ → A
update f i v j = if i == j then v else f j

pub update_self {ℓ} : {A : Type ℓ} (f : ℕ → A) (i : ℕ) (v : A) → update f i v i ≡ v
update_self f i v = ground arith

pub update_ne {ℓ} : {A : Type ℓ} (f : ℕ → A) (i j : ℕ) (v : A) → i ≢ j → update f i v j ≡ f j
update_ne f i j v h = ground arith

pub update_twice {ℓ} :
    {A : Type ℓ} (f : ℕ → A) (i : ℕ) (v w : A) → update (update f i v) i w ≡ update f i w
update_twice f i v w = fun_ext λ j. ground arith

pub update_same {ℓ} : {A : Type ℓ} (f : ℕ → A) (i : ℕ) → update f i (f i) ≡ f
update_same f i = fun_ext λ j. ground arith
