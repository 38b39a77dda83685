-- ===== src/Saloha/Crdsa.antt =====
-- opensand-core/src/dvb/saloha/SlottedAlohaAlgoCrdsa.cpp: `removeCollisions`. A slot holds pointers to
-- packets: `none` is one whose packet was moved away, and reading it is a null dereference.
pub mod Rounds
pub mod Outcomes
mod Tests
use opensand.Prelude.{
  ℕ, zero, suc, ◌+◌, Bool, true, false, Option, none, some, List, [], ◌∷◌, ◌++◌, length, ltb, ◌&&◌,
  if◌then◌else◌, add16,
}
use opensand.Saloha.Packet.{Packet, same_packet, has, Round}
use opensand.Saloha.Dsa.{keep}

abbrev pub Slot : Type 0
Slot = List (Option Packet)

-- The inner loop: packets that were accepted on another slot are erased. `none` is the dereference.
unfoldable pub suppress : List Packet → Slot → Option Slot
suppress ids [] = some []
suppress ids (none ∷ es) = none
suppress ids (some p ∷ es) = elim (suppress ids es) [
  | none ↦ none
  | some rest ↦ some (if has p ids then rest else some p ∷ rest)
]

-- What follows: a packet that is alone is accepted, and its pointer in the slot is left null. The
-- Boolean is `stop`.
unfoldable pub settle_slot : Slot → Round → Option (Slot × Round × Bool)
unfolding keep
settle_slot [] r = some ([], r, true)
settle_slot (none ∷ []) r = none
settle_slot (some p ∷ []) r = some (none ∷ [], keep p r, false)
settle_slot (e ∷ e' ∷ es) r = some (e ∷ e' ∷ es, r, true)

unfoldable pub crdsa_slot : Slot → Round → Option (Slot × Round × Bool)
unfolding suppress settle_slot
crdsa_slot slot r = elim (suppress r.accepted_ids slot) [ none ↦ none | some s ↦ settle_slot s r ]

-- One round over the slots.
unfoldable pub crdsa_round : List Slot → Round → Option (List Slot × Round × Bool)
unfolding crdsa_slot
crdsa_round [] r = some ([], r, true)
crdsa_round (s ∷ ss) r = elim (crdsa_slot s r) [
  | none ↦ none
  | some t ↦ elim (crdsa_round ss t.1) [ none ↦ none | some u ↦ some (t.0 ∷ u.0, u.1, t.2 && u.2) ]
]

-- The last loop: what still collides is counted. The slots are cleared.
unfoldable pub count_collisions : List Slot → ℕ → ℕ
count_collisions [] n = n
count_collisions (s ∷ ss) n =
    count_collisions ss (if ltb 1 (length s) then add16 n (length s) else n)

-- How a run ends: with the function's variables, at a null pointer, or not within its fuel.
pub data Outcome : Type 0 where
  finished : Round → Outcome
  crashed unfinished : Outcome

-- `do ... while(!stop)`, with fuel for its rounds.
unfoldable pub crdsa_loop : ℕ → List Slot → Round → Outcome
unfolding crdsa_round count_collisions
crdsa_loop zero slots r = unfinished
crdsa_loop (suc fuel) slots r = elim (crdsa_round slots r) [
  | none ↦ crashed
  | some (slots', r', stop) ↦
      let rest = crdsa_loop fuel slots' r' in
      if stop
      then finished (record r' { nbr_collisions = count_collisions slots' r'.nbr_collisions })
      else rest
]

unfoldable pub crdsa_remove_collisions : ℕ → List Slot → List Packet → Outcome
unfolding crdsa_loop
crdsa_remove_collisions fuel slots accepted =
    crdsa_loop fuel slots
      (record { accepted_ids = []; accepted_packets = accepted; nbr_collisions = 0 })
