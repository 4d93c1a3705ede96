-- ===== src/Base/Words.antt =====
-- Big-endian bytes of 32-bit words, as encoding/binary writes and reads them.
use Prim.Native.Nat.{ℕ, ◌+◌, ◌*◌, ◌/◌, ◌%◌, ◌^◌, ◌≤◌, ◌<◌}
use mathlib.Core.Path.{◌≡◌, refl}
use mathlib.Core.List.{List, [], ◌∷◌, ◌++◌}
use native.Mathlib.Omega.{arith}
use minecraft_orchestrator.Base.Lists.{length}

-- binary.BigEndian.PutUint32.
abbrev pub put_u32 : ℕ → List ℕ
put_u32 n = (n / 2 ^ 24 % 256) ∷ (n / 2 ^ 16 % 256) ∷ (n / 2 ^ 8 % 256) ∷ (n % 256) ∷ []

-- binary.BigEndian.Uint32; the source panics on fewer than four bytes and never asks for it.
unfoldable pub u32_of : List ℕ → ℕ
u32_of (a ∷ b ∷ c ∷ d ∷ rest) = a * 2 ^ 24 + b * 2 ^ 16 + c * 2 ^ 8 + d
u32_of _ = 0

pub u32_of-put_u32 : (n : ℕ) (rest : List ℕ) → n < 2 ^ 32 → u32_of (put_u32 n ++ rest) ≡ n
unfolding u32_of
u32_of-put_u32 n rest h = omega arith

pub u32_of-append : (b c : List ℕ) → 4 ≤ length b → u32_of (b ++ c) ≡ u32_of b
unfolding u32_of
u32_of-append (x ∷ y ∷ z ∷ w ∷ b) c h = refl
u32_of-append [] c h = absurd (omega arith)
u32_of-append (x ∷ []) c h = absurd (omega arith)
u32_of-append (x ∷ y ∷ []) c h = absurd (omega arith)
u32_of-append (x ∷ y ∷ z ∷ []) c h = absurd (omega arith)

-- binary.BigEndian.PutUint16 and Uint16.
abbrev pub put_u16 : ℕ → List ℕ
put_u16 n = (n / 2 ^ 8 % 256) ∷ (n % 256) ∷ []

unfoldable pub u16_of : List ℕ → ℕ
u16_of (a ∷ b ∷ rest) = a * 2 ^ 8 + b
u16_of _ = 0

-- binary.BigEndian.PutUint64 and Uint64.
abbrev pub put_u64 : ℕ → List ℕ
put_u64 n =
    (n / 2 ^ 56 % 256)
    ∷ (n / 2 ^ 48 % 256)
    ∷ (n / 2 ^ 40 % 256)
    ∷ (n / 2 ^ 32 % 256)
    ∷ (n / 2 ^ 24 % 256)
    ∷ (n / 2 ^ 16 % 256)
    ∷ (n / 2 ^ 8 % 256)
    ∷ (n % 256)
    ∷ []

unfoldable pub u64_of : List ℕ → ℕ
u64_of (a ∷ b ∷ c ∷ d ∷ e ∷ f ∷ g ∷ h ∷ rest) =
    a * 2 ^ 56 + b * 2 ^ 48 + c * 2 ^ 40 + d * 2 ^ 32 + e * 2 ^ 24 + f * 2 ^ 16 + g * 2 ^ 8 + h
u64_of _ = 0

pub u16_of-put_u16 : (n : ℕ) → n < 2 ^ 16 → u16_of (put_u16 n) ≡ n
unfolding u16_of
u16_of-put_u16 n h = omega arith

pub u64_of-put_u64 : (n : ℕ) → n < 2 ^ 64 → u64_of (put_u64 n) ≡ n
unfolding u64_of
u64_of-put_u64 n h = omega arith
