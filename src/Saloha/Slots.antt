-- ===== src/Saloha/Slots.antt =====
-- `SlottedAlohaTal::getTimeSlots` of opensand-core/src/dvb/saloha/SlottedAlohaTal.cpp: random slots on
-- random carriers.
--
-- `draw k n` is the k-th random number of its loop, `(rand() / (double)RAND_MAX) * n` rounded down.
pub mod Ascending
pub mod Distinct
use opensand.Prelude.{
  ℕ, zero, suc, ◌+◌, ◌*◌, ◌/◌, Bool, true, false, Option, none, some, List, [], ◌∷◌, ltb, length,
  ◌==◌, if◌then◌else◌, u16, min,
}

-- `insert` of a `std::set`.
unfoldable pub insert_slot : ℕ → List ℕ → List ℕ
insert_slot slot [] = slot ∷ []
insert_slot slot (x ∷ xs) =
    let later = insert_slot slot xs in
    if slot == x then x ∷ xs else if ltb slot x then slot ∷ x ∷ xs else x ∷ later

-- First step, with fuel.
unfoldable pub draw_slots : (ℕ → ℕ) → ℕ → ℕ → ℕ → List ℕ → Option (List ℕ)
unfolding insert_slot
draw_slots draw zero k max tmp = none
draw_slots draw (suc fuel) k max tmp = elim (ltb (length tmp) max) [
  | false ↦ some tmp
  | true ↦ draw_slots draw fuel (k + 1) max (insert_slot (u16 (draw k)) tmp)
]

-- Second step.
unfoldable pub spread_slots : (ℕ → ℕ) → ℕ → ℕ → List ℕ → List ℕ → List ℕ
unfolding insert_slot
spread_slots draw slots_per_carrier k [] time_slots = time_slots
spread_slots draw slots_per_carrier k (x ∷ xs) time_slots =
    spread_slots draw slots_per_carrier (k + 1) xs
      (insert_slot (u16 (draw k * slots_per_carrier + x)) time_slots)

-- Both steps, for the number of slots to draw.
unfoldable pub steps : (ℕ → ℕ) → (ℕ → ℕ) → ℕ → ℕ → ℕ → Option (List ℕ)
unfolding draw_slots spread_slots
steps draw draw_carrier fuel slots_per_carrier max = elim (draw_slots draw fuel 0 max []) [
  | none ↦ none
  | some tmp ↦ some (spread_slots draw_carrier slots_per_carrier 0 tmp [])
]

-- The number of packets that wait, the limit, and the numbers of replicas, slots and carriers.
unfoldable pub get_time_slots : (ℕ → ℕ → ℕ) → (ℕ → ℕ → ℕ) → ℕ → ℕ → ℕ → ℕ → ℕ → ℕ → Option (List ℕ)
unfolding steps
get_time_slots draw draw_carrier fuel nb_packets nb_max_packets nb_replicas slots_number
      carriers_number =
    if carriers_number == 0
    then none
    else let slots_per_carrier = slots_number / carriers_number in
      steps (λ k. draw k slots_per_carrier) (λ k. draw_carrier k carriers_number) fuel
        slots_per_carrier (u16 (min nb_packets nb_max_packets * nb_replicas))
