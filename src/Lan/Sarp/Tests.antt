-- ===== src/Lan/Sarp/Tests.antt =====
-- A small table, and the instances of the theorems.
use opensand.Prelude.{ℕ, ◌≤◌, ◌≡◌, refl, true, false, [], ◌∷◌, arith, length}
use opensand.Lan.Mac.{MacAddress, exact_byte, of_string, str, matches, digit}
use opensand.Lan.Mac.Text.{plain, of_string-str}
use opensand.Lan.Sarp.{SarpTable, get_tal_by_mac, learn, find_mac}
use opensand.Lan.Sarp.Learning.{Heard, learn_all, learn_all-found, learn_all-bounded}

abbrev mac : ℕ → MacAddress
mac b =
    exact_byte 2 ∷ exact_byte 0 ∷ exact_byte 171 ∷ exact_byte 0 ∷ exact_byte 0 ∷ exact_byte b ∷ []

abbrev table : SarpTable
table = record { max_entries = 2; eth_sarp = []; default_dest = 7 }

abbrev heard : ℕ → ℕ → Heard
heard b tal = record { memory = mac 0; mac = mac b; tal_id = tal }

-- Terminal 1 keeps its address although terminal 3 uses it later.
learn_run :
    get_tal_by_mac (mac 9) (learn_all (heard 9 1 ∷ heard 8 2 ∷ heard 9 3 ∷ []) table) ≡ (true, 1)
unfolding get_tal_by_mac learn_all of_string str find_mac matches digit
learn_run = refl

of_string-str_example : of_string (mac 0) (str (mac 200)) ≡ plain (mac 200)
of_string-str_example =
    of_string-str (mac 200) (mac 0)
      (omega arith, (omega arith, (omega arith, (omega arith, (omega arith, (omega arith, tt))))))
      refl

learn_all-found_example :
    get_tal_by_mac (mac 9) (learn_all (heard 9 3 ∷ []) (learn (mac 0) (mac 9) 1 table).1)
    ≡ (true, 1)
learn_all-found_example =
    learn_all-found (mac 0) (mac 9) 1 table (heard 9 3 ∷ [])
      (refl, (refl, (refl, (refl, (refl, (refl, tt))))))
      (omega arith, (omega arith, (omega arith, (omega arith, (omega arith, (omega arith, tt))))))
      refl (omega arith) (unfold find_mac in refl)

abbrev full : SarpTable
full = record {
  max_entries = 1;
  eth_sarp = record { mac = mac 9; tal_id = 1 } ∷ [];
  default_dest = 7;
}

learn_all-bounded_example :
    (length (learn_all (heard 9 1 ∷ []) full).eth_sarp ≤ full.max_entries)
    × (length full.eth_sarp ≡ full.max_entries
        → (learn_all (heard 9 1 ∷ []) full ≡ full)
          × ((memory src : MacAddress) (tal : ℕ) → learn memory src tal full ≡ (false, full)))
learn_all-bounded_example = learn_all-bounded (heard 9 1 ∷ []) full (omega arith)
