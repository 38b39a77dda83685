-- ===== src/Saloha/Dsa/Tests.antt =====
-- A frame with a duplicate and a collision, and the instance of the theorem.
use opensand.Prelude.{ℕ, ◌≡◌, refl, List, [], ◌∷◌, ◌++◌, u16}
use opensand.Saloha.Packet.{Packet, has}
use opensand.Saloha.Dsa.{
  dsa_remove_collisions, alone, collided, firsts, New, dsa_remove_collisions-firsts,
}

abbrev packet : ℕ → ℕ → Packet
packet tal id = record { src_tal_id = tal; id = id; seq = 0; pdu_nb = 1; qos = 2 }

abbrev slots : List (List Packet)
slots =
    (packet 1 7 ∷ [])
    ∷ []
    ∷ (packet 2 7 ∷ packet 3 1 ∷ [])
    ∷ (packet 1 7 ∷ [])
    ∷ (packet 2 7 ∷ [])
    ∷ []

-- The second copy of terminal 1's packet is ignored; slot 2 has two collisions.
dsa_run :
    ((dsa_remove_collisions slots []).0.accepted_packets ≡ packet 1 7 ∷ packet 2 7 ∷ [])
    × ((dsa_remove_collisions slots []).0.nbr_collisions ≡ 2)
unfolding dsa_remove_collisions has
dsa_run = (refl, refl)

dsa_remove_collisions-firsts_example :
    let r = (dsa_remove_collisions slots []).0 in
    (r.accepted_packets ≡ [] ++ firsts [] (alone slots))
    × New [] (firsts [] (alone slots))
    × (u16 r.nbr_collisions ≡ u16 (collided slots))
dsa_remove_collisions-firsts_example = dsa_remove_collisions-firsts slots []
