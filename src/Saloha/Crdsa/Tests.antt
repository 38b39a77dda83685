-- ===== src/Saloha/Crdsa/Tests.antt =====
-- Frames with and without a packet that is alone, and the instance of the theorem.
use opensand.Prelude.{ℕ, ◌≡◌, refl, true, false, List, [], ◌∷◌, u16}
use opensand.Saloha.Packet.{Packet, Round, has}
use opensand.Saloha.Dsa.{collided}
use opensand.Saloha.Crdsa.{finished, crashed, crdsa_remove_collisions}
use opensand.Saloha.Crdsa.Rounds.{load_all, any_single}
use opensand.Saloha.Crdsa.Outcomes.{crdsa_outcomes}

abbrev packet : ℕ → ℕ → Packet
packet tal id = record { src_tal_id = tal; id = id; seq = 0; pdu_nb = 1; qos = 2 }

-- Terminal 1 sent its packet twice, and collides once: interference cancellation would free terminal 2.
abbrev replicas : List (List Packet)
replicas = (packet 1 7 ∷ []) ∷ (packet 1 7 ∷ packet 2 9 ∷ []) ∷ []

replicas_run : crdsa_remove_collisions 2 (load_all replicas) [] ≡ crashed
unfolding crdsa_remove_collisions load_all has
replicas_run = refl

crdsa_outcomes_example :
    (any_single replicas ≡ true → crdsa_remove_collisions 10 (load_all replicas) [] ≡ crashed)
    × (any_single replicas ≡ false
        → (r : Round) × (crdsa_remove_collisions 9 (load_all replicas) [] ≡ finished r)
          × (r.accepted_packets ≡ [])
          × (u16 r.nbr_collisions ≡ u16 (collided replicas)))
crdsa_outcomes_example = crdsa_outcomes 8 replicas []
