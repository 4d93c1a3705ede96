-- ===== src/Core/Outcome.antt =====
-- Entities, and what an operation of orchestrator/internal/engine/core ends in: a value, an error or
-- a panic. An error keeps what its message names.
use minecraft_orchestrator.Base.{ℕ, Bool, ◌&&◌, ◌==◌}
use minecraft_orchestrator.Model.Types.{ProfileId}
use minecraft_orchestrator.Model.Mask.{Mask}

-- The fields are uint32.
pub record Entity : Type 0 where
  pub index : ℕ
  pub generation : ℕ

unfoldable pub is_zero : Entity → Bool
is_zero e = e.index == 0 && e.generation == 0

pub data Error : Type 0 where
  empty_mask negative_max_health zero_profile corrupted_bot : Error
  bot_mapped : ProfileId → Entity → Error
  bot_in_batch : ProfileId → Error
  invalid_index stale_or_dead destroyed_in_batch : Entity → Error
  mask_mismatch : Mask → Mask → Error
  row_out_of_range : ℕ → Error
  wrong_archetype : Entity → Mask → Mask → Error

pub data Result {ℓ} (A : Type ℓ) : Type ℓ where
  ok : A → Result A
  err : Error → Result A
  panic : Result A

infixl 5 ◌>>=◌
abbrev pub ◌>>=◌ {ℓ μ} : {B : Type μ} {A : Type ℓ} → Result A → (A → Result B) → Result B
panic >>= next = panic
err stopped >>= next = err stopped
ok value >>= next = next value

infixl 5 ◌>>◌
abbrev pub ◌>>◌ {μ} : {B : Type μ} → Result (Unit {0}) → Result B → Result B
first >> second = first >>= λ _. second

abbrev pub guard : Bool → Error → Result (Unit {0})
guard Bool.true e = ok tt
guard Bool.false e = err e
