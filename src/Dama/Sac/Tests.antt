-- ===== src/Dama/Sac/Tests.antt =====
-- Runs of the SAC at concrete inputs, and the instances of its theorems.
use opensand.Prelude.{◌≤◌, ◌≡◌, refl, [], ◌∷◌, arith}
use opensand.Access.{dama_vbdc, dama_rbdc}
use opensand.Dama.Sac.{new_sac, scale_and_value}
use opensand.Dama.Sac.Codec.{received, Within, received-vbdc, received-rbdc}
use opensand.Dama.Sac.Message.{Wish, arrives, add_all, Framed, add_all-first_only}

coded_rates :
    (scale_and_value dama_rbdc 509 ≡ (0, 255))
    × (scale_and_value dama_rbdc 8160 ≡ (1, 255))
    × (scale_and_value dama_rbdc 16320 ≡ (2, 255))
unfolding scale_and_value
coded_rates = (refl, refl, refl)

received-vbdc_example :
    ((received 0 dama_vbdc 1000).access ≡ dama_vbdc)
    × (1000 ≤ 255 → (received 0 dama_vbdc 1000).value ≡ 1000)
    × Within 8 (received 0 dama_vbdc 1000).value 1000
received-vbdc_example = received-vbdc 0 1000 (omega arith)

received-rbdc_example :
    ((received 0 dama_rbdc 9000).access ≡ dama_rbdc)
    × (9000 ≤ 510 → Within 1 (received 0 dama_rbdc 9000).value 9000)
    × (9000 ≤ 8160 → Within 16 (received 0 dama_rbdc 9000).value 9000)
    × Within 32 (received 0 dama_rbdc 9000).value 9000
received-rbdc_example = received-rbdc 0 9000 (omega arith)

abbrev rate_wish : Wish
rate_wish = record { prio = 0; access = dama_rbdc; value = 300 }

abbrev volume_wish : Wish
volume_wish = record { prio = 0; access = dama_vbdc; value = 80 }

add_all-first_only_example :
    Framed (add_all (rate_wish ∷ volume_wish ∷ []) (new_sac 0 7 1)) (arrives rate_wish ∷ [])
    × (add_all (rate_wish ∷ volume_wish ∷ []) (new_sac 0 7 1)
        ≡ add_all (rate_wish ∷ []) (new_sac 0 7 1))
add_all-first_only_example = add_all-first_only 0 7 1 rate_wish (volume_wish ∷ [])
