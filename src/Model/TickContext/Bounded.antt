-- ===== src/Model/TickContext/Bounded.antt =====
-- The arrays of a tick's snapshot against the slices that fill them (tick_context.go).
use minecraft_orchestrator.Base.{
  ℕ, zero, suc, ◌+◌, ◌-◌, ◌%◌, ◌≤◌, ◌<◌, min, false, ltb, leb, if◌then◌else◌, List, [], ◌∷◌, ◌++◌,
  length, set, take, map, ◌≡◌, refl, sym, ap, ◌∙◌, arith, append_assoc, inl, inr, if_true, if_false,
  le→leb, length-append, length-take, take-append, take-length, Option-cases, le→ltb,
}
use minecraft_orchestrator.Model.Components.{InventorySlot, Inventory}
use minecraft_orchestrator.Model.Chunks.{replicate}
use minecraft_orchestrator.Model.TickContext.{
  TickContextInput, TickInventorySlot, fill, snapshot_slot, restore_slot, to_inventory,
  snapshot_inventory, no_slot, no_entity, no_seen_block, new_tick_context,
}

lt→leb : (a b : ℕ) → b < a → leb a b ≡ false
lt→leb a b h = ground arith

set-append_end {ℓ} :
    {A : Type ℓ} (xs rest : List A) (x y : A) (i : ℕ)
    → i ≡ length xs
    → set (xs ++ x ∷ rest) i y ≡ (xs ++ y ∷ []) ++ rest
set-append_end [] rest x y zero e = refl
set-append_end [] rest x y (suc i) e = absurd (omega (arith, e))
set-append_end (w ∷ xs) rest x y zero e = absurd (omega (arith, e))
set-append_end (w ∷ xs) rest x y (suc i) e =
    ap (◌∷◌ w) (set-append_end xs rest x y i (omega (arith, e)))

pair_path {ℓ μ} :
    {A : Type ℓ} {B : Type μ} {a c : A} {b d : B} → a ≡ c → b ≡ d → ◌≡◌ {A = A × B} (a, b) (c, d)
pair_path p q = λ i. (p i, q i)

take_none {ℓ} : {A : Type ℓ} (n : ℕ) → take {A = A} n [] ≡ []
take_none zero = refl
take_none (suc n) = refl

module _ {ℓ μ} {A : Type ℓ} {B : Type μ} (of : A → B) where
  -- From index i on, with i entries written and n left of the array.
  fill-append :
      (xs : List A) (n : ℕ) (written : List B) (z : B) (capacity i : ℕ)
      → capacity ≡ i + n
      → i ≡ length written
      → capacity < 256
      → fill of capacity i xs (written ++ replicate n z) i
        ≡ (written ++ (map of (take n xs) ++ replicate (n - length xs) z), i + min n (length xs))
  unfolding fill
  fill-append [] n written z capacity i e f h =
      let all_left : n ≡ n - 0 = omega arith in
      pair_path
        (ap (λ front. written ++ (map of front ++ replicate n z)) (sym (take_none n))
          ∙ ap (λ k. written ++ (map of (take n []) ++ replicate k z)) all_left)
        (omega arith)
  fill-append (x ∷ xs) zero written z capacity i e f h =
      let none_left : 0 ≡ 0 - suc (length xs) = omega arith in
      if_true _ _ _ (le→leb capacity i (omega arith))
      ∙ pair_path (ap (λ k. written ++ replicate k z) none_left) (omega arith)
  fill-append (x ∷ xs) (suc n) written z capacity i e f h =
      let one_more : (i + 1) % 256 ≡ suc i = omega arith in
      let left : n - length xs ≡ suc n - suc (length xs) = omega arith in
      if_false _ _ _ (lt→leb capacity i (omega arith))
      ∙ ap (λ array. fill of capacity (suc i) xs array ((i + 1) % 256))
          (set-append_end written (replicate n z) z (of x) i f)
      ∙ ap (fill of capacity (suc i) xs ((written ++ of x ∷ []) ++ replicate n z)) one_more
      ∙ fill-append xs n (written ++ of x ∷ []) z capacity (suc i) (omega arith)
          (omega (arith, f, length-append written (of x ∷ []))) h
      ∙ pair_path
          (append_assoc written (of x ∷ []) (map of (take n xs) ++ replicate (n - length xs) z)
            ∙ ap (λ k. written ++ (of x ∷ (map of (take n xs) ++ replicate k z))) left)
          (omega arith)

  -- Of a whole array: the first entries, as many as it holds, and zero values after them.
  pub fill_lem :
      (capacity : ℕ) (xs : List A) (z : B)
      → capacity < 256
      → fill of capacity 0 xs (replicate capacity z) 0 ≡ (
        map of (take capacity xs) ++ replicate (capacity - length xs) z,
        min capacity (length xs),
      )
  fill_lem capacity xs z h =
      fill-append xs capacity [] z capacity 0 (omega arith) refl h ∙ pair_path refl (omega arith)

length-map {ℓ μ} :
    {A : Type ℓ} {B : Type μ} (f : A → B) (xs : List A) → length (map f xs) ≡ length xs
length-map f [] = refl
length-map f (x ∷ xs) = ap suc (length-map f xs)

take-used {ℓ} : {B : Type ℓ} (ys rest : List B) (k : ℕ) → length ys ≡ k → take k (ys ++ rest) ≡ ys
take-used ys rest k e =
    ap (λ n. take n (ys ++ rest)) (sym e)
    ∙ take-append (length ys) ys rest (omega arith)
    ∙ take-length ys

-- What is in use of a filled array.
used :
    {A B : Type 0} (of : A → B) (capacity : ℕ) (xs : List A) (z : B)
    → capacity < 256
    → let filled = fill of capacity 0 xs (replicate capacity z) 0 in
      (take filled.1 filled.0 ≡ map of (take capacity xs)) × (filled.1 ≤ length filled.0)
used of capacity xs z h =
    let count : length (map of (take capacity xs)) ≡ min capacity (length xs) =
      length-map of (take capacity xs) ∙ length-take capacity xs in
    rw (fill_lem of capacity xs z h) (
      take-used (map of (take capacity xs)) _ (min capacity (length xs)) count,
      omega (
        arith,
        count,
        length-append (map of (take capacity xs)) (replicate (capacity - length xs) z),
      ),
    )

restore-snapshot : (slots : List InventorySlot) → map restore_slot (map snapshot_slot slots) ≡ slots
unfolding restore_slot snapshot_slot
restore-snapshot [] = refl
restore-snapshot (slot ∷ slots) = elim (Option-cases slot.item) [
  | inl empty ↦ grind (arith, empty, restore-snapshot slots)
  | inr (item, held) ↦ grind (arith, held, restore-snapshot slots)
]

map_same {ℓ} : {A : Type ℓ} (xs : List A) → map (λ x. x) xs ≡ xs
map_same [] = refl
map_same (x ∷ xs) = ap (◌∷◌ x) (map_same xs)

in_range :
    (slots : List TickInventorySlot) (count : ℕ)
    → count ≤ length slots
    → map restore_slot (take (if ltb (length slots) count then length slots else count) slots)
      ≡ map restore_slot (take count slots)
in_range slots count h =
    ap (λ n. map restore_slot (take n slots)) (if_false _ _ _ (le→ltb (length slots) count h))

to_inventory-snapshot_inventory :
    (inventory : Inventory)
    → to_inventory (snapshot_inventory inventory) ≡ record {
      selected_hotbar_slot = inventory.selected_hotbar_slot;
      slots = take 64 inventory.slots;
    }
unfolding to_inventory snapshot_inventory
to_inventory-snapshot_inventory inventory =
    let (front, room) = used snapshot_slot 64 inventory.slots no_slot (omega arith) in
    λ i. record {
      selected_hotbar_slot = inventory.selected_hotbar_slot;
      slots =
          (in_range (fill snapshot_slot 64 0 inventory.slots (replicate 64 no_slot) 0).0 _ room
              ∙ ap (map restore_slot) front
              ∙ restore-snapshot (take 64 inventory.slots))
            i;
    }

-- The snapshot of a tick has what its input has of the inventory, the entities and the blocks, up to
-- the capacities 64, 64 and 128: the inventory that is read back is that of the first 64 slots with
-- their items, and the entries in use are the first 64 entities and the first 128 blocks.
pub new_tick_context-bounded :
    (input : TickContextInput)
    → let c = new_tick_context input in
      (to_inventory c.inventory ≡ record {
        selected_hotbar_slot = input.inventory.selected_hotbar_slot;
        slots = take 64 input.inventory.slots;
      })
      × (take c.entity_count c.entities ≡ take 64 input.entities)
      × (take c.block_count c.blocks ≡ take 128 input.blocks)
unfolding new_tick_context
new_tick_context-bounded input = (
  to_inventory-snapshot_inventory input.inventory,
  (used (λ e. e) 64 input.entities no_entity (omega arith)).0 ∙ map_same (take 64 input.entities),
  (used (λ b. b) 128 input.blocks no_seen_block (omega arith)).0 ∙ map_same (take 128 input.blocks),
)
