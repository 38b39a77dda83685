-- ===== src/Dama/Buffer/Tests.antt =====
-- Runs of `CircularBuffer` at concrete inputs, and the instances of its theorems.
use opensand.Prelude.{
  ℕ, ◌≡◌, refl, true, false, List, [], ◌∷◌, some, arith, replicate, get_or, sum, u16, if◌then◌else◌,
  ◌==◌,
}
use opensand.Dama.Buffer.{
  CircularBuffer, new_buffer, update_all, get_sum, previous_value, last_value, partial_sum,
}
use opensand.Dama.Buffer.Window.{Holds, window, recent}
use opensand.Dama.Buffer.Sum.{update_all-recent}

abbrev history : List ℕ
history = 10 ∷ 20 ∷ 30 ∷ 40 ∷ []

-- Three places, of which the newest value is in the first.
abbrev wrapped : CircularBuffer
wrapped = record {
  save_only_last_value = false;
  size = 3;
  index = 0;
  nbr_values = 3;
  sum = 90;
  min_value = 0;
  values = some (40 ∷ 20 ∷ 30 ∷ []);
}

wrapped_is_reached : update_all history (new_buffer true 3) ≡ wrapped
unfolding update_all new_buffer
wrapped_is_reached = refl

wrapped-Holds : Holds wrapped (40 ∷ 20 ∷ 30 ∷ [])
wrapped-Holds = record { held = refl; full_size = refl; index_in = omega arith }

reads_of_wrapped :
    (previous_value wrapped ≡ 40) × (last_value wrapped ≡ 20) × (get_sum wrapped ≡ 90)
unfolding previous_value last_value get_sum
reads_of_wrapped = (refl, refl, refl)

-- The values before the newest are 30 and 20; the sum of the last two is read as 40 + 40.
partial_sum_is_off : partial_sum 2 wrapped ≡ 80
unfolding partial_sum
partial_sum_is_off = refl

update_all-recent_example :
    let b = update_all history (new_buffer true 3) in
    let size = (new_buffer true 3).size in
    (values : List ℕ) × Holds b values
    × (window b values ≡ recent size history (replicate size 0))
    × (previous_value b ≡ get_or (recent size history (replicate size 0)) 0 0)
    × (get_sum b ≡ (if 3 == 0 then 0 else u16 (sum (recent size history (replicate size 0)))))
update_all-recent_example = update_all-recent 3 history
