-- ===== src/Saloha/Slots/Distinct.antt =====
-- That the slots that `getTimeSlots` draws are at different times.
use native.Mathlib.Nat.{
  mul-add-mod_self_right, mod-eq_of_lt, mul-le-mul_right, mul-div-le, div-le_self,
}
use opensand.Prelude.{
  ℕ, suc, ◌+◌, ◌*◌, ◌/◌, ◌%◌, ◌≤◌, ◌<◌, ◌≡◌, ◌≢◌, refl, sym, ap, ◌∙◌, false, some, List, [], ◌∷◌,
  ltb, length, ◌==◌, arith, Bool-cases, inl, inr, All, u16, min,
}
use opensand.Saloha.Slots.{insert_slot, spread_slots, steps, get_time_slots}
use opensand.Saloha.Slots.Ascending.{
  Ascending, insert_slot-All, insert_slot-Ascending, drawn, draw_slots-Set, steps-some,
}

-- No two at the same time, on whatever carriers.
abbrev pub Apart : ℕ → List ℕ → Type 0
Apart per [] = Unit
Apart per (x ∷ xs) = All (λ y. x % per ≢ y % per) xs × Apart per xs

insert_slot-Apart :
    (per s : ℕ) (xs : List ℕ)
    → Apart per xs
    → All (λ y. s % per ≢ y % per) xs
    → Apart per (insert_slot s xs)
unfolding insert_slot
insert_slot-Apart per s [] h k = (tt, tt)
insert_slot-Apart per s (x ∷ xs) h k =
    let ih = insert_slot-Apart per s xs h.1 k.1 in
    elim (Bool-cases (s == x)) [
      | inl e ↦ rw e h
      | inr e ↦ elim (Bool-cases (ltb s x)) [
        | inl l ↦ rw (e, l) (k, h)
        | inr l ↦
            rw (e, l)
              (insert_slot-All (λ y. x % per ≢ y % per) s xs h.0 (λ same. k.0 (sym same)), ih)
      ]
    ]

length-insert_slot_new :
    (s : ℕ) (xs : List ℕ) → All (λ y. s ≢ y) xs → length (insert_slot s xs) ≡ suc (length xs)
unfolding insert_slot
length-insert_slot_new s [] h = refl
length-insert_slot_new s (x ∷ xs) h =
    let ih = length-insert_slot_new s xs h.1 in let differs = h.0 in ground (arith, ih, differs)

-- The slots, for the carriers and the slots of each.
pub record Spread (per carriers n : ℕ) (slots : List ℕ) : Type 0 where
  pub ascending : Ascending slots
  pub apart : Apart per slots
  pub within : All (λ x. x < carriers * per) slots
  pub count : length slots ≡ n

-- All slots are at times before those still to come.
abbrev Before : ℕ → List ℕ → List ℕ → Type 0
Before per xs out = All (λ y. All (λ x. y % per < x) xs) out

Before-tail : (per x : ℕ) (xs out : List ℕ) → Before per (x ∷ xs) out → Before per xs out
Before-tail per x xs [] h = tt
Before-tail per x xs (y ∷ ys) h = (h.0.1, Before-tail per x xs ys h.1)

Before-new :
    (per s x : ℕ) (xs out : List ℕ)
    → s % per ≡ x
    → Before per (x ∷ xs) out
    → All (λ y. s % per ≢ y % per) out × All (λ y. s ≢ y) out
Before-new per s x xs [] e h = (tt, tt)
Before-new per s x xs (y ∷ ys) e h =
    let (ih, ih') = Before-new per s x xs ys e h.1 in
    let earlier = h.0.0 in
    let apart : s % per ≢ y % per = λ same. omega (arith, same) in
    ((apart, ih), ((λ same. apart (ap (λ n. n % per) same)), ih'))

module _ (draw : ℕ → ℕ) (per carriers : ℕ) where
  placed :
      (c x : ℕ)
      → c < carriers
      → x < per
      → carriers * per < 65536
      → (u16 (c * per + x) % per ≡ x) × (u16 (c * per + x) < carriers * per)
  placed c x h k small =
      let room : suc c * per ≤ carriers * per = mul-le-mul_right per (omega arith) in
      let next : suc c * per ≡ c * per + per = omega arith in
      let whole : u16 (c * per + x) ≡ c * per + x = omega arith in
      (ap (λ n. n % per) whole ∙ mul-add-mod_self_right c per x ∙ mod-eq_of_lt k, omega arith)

  spread_slots-Spread :
      (k : ℕ) (xs out : List ℕ)
      → ((k : ℕ) → draw k < carriers)
      → carriers * per < 65536
      → Ascending xs
      → All (λ x. x < per) xs
      → Before per xs out
      → Spread per carriers (length out) out
      → Spread per carriers (length xs + length out) (spread_slots draw per k xs out)
  unfolding spread_slots
  spread_slots-Spread k [] out d small a w b s = record {
    ascending = s.ascending;
    apart = s.apart;
    within = s.within;
    count = omega arith;
  }
  spread_slots-Spread k (x ∷ xs) out d small a w b s =
      let slot : ℕ = u16 (draw k * per + x) in
      let (time, below) = placed (draw k) x (d k) w.0 small in
      let (apart, differs) = Before-new per slot x xs out time b in
      let longer = length-insert_slot_new slot out differs in
      let later : All (λ y. slot % per < y) xs = rw time a.0 in
      let now : Spread per carriers (length (insert_slot slot out)) (insert_slot slot out) =
        record {
          ascending = insert_slot-Ascending slot out s.ascending;
          apart = insert_slot-Apart per slot out s.apart apart;
          within = insert_slot-All (λ y. y < carriers * per) slot out s.within below;
          count = refl;
        } in
      let all =
        spread_slots-Spread (k + 1) xs (insert_slot slot out) d small a.1 w.1
          (insert_slot-All (λ y. All (λ x'. y % per < x') xs) slot out (Before-tail per x xs out b)
            later)
          now in
      record {
        ascending = all.ascending;
        apart = all.apart;
        within = all.within;
        count = all.count ∙ omega (arith, longer);
      }

-- There is a carrier, the slots and the number wanted are 16-bit words, and the draws stay below their
-- ranges, that is none is the largest that `rand` gives. If among the first draws there are as many different ones as slots are wanted, `getTimeSlots`
-- returns. It gives as many slots as the packets that may be sent have replicas: in ascending order, on
-- the carriers, and no two of them at the same time.
pub get_time_slots-Spread :
    (draw draw_carrier : ℕ → ℕ → ℕ)
    (fuel nb_packets nb_max_packets nb_replicas slots_number carriers_number : ℕ)
    → 1 ≤ carriers_number
    → slots_number < 65536
    → ((k : ℕ) → draw k (slots_number / carriers_number) < slots_number / carriers_number)
    → ((k : ℕ) → draw_carrier k carriers_number < carriers_number)
    → min nb_packets nb_max_packets * nb_replicas < 65536
    → min nb_packets nb_max_packets * nb_replicas
      ≤ length (drawn (λ k. draw k (slots_number / carriers_number)) fuel 0 [])
    → (slots : List ℕ) × (get_time_slots draw draw_carrier
          (suc fuel)
          nb_packets
          nb_max_packets
          nb_replicas
          slots_number
          carriers_number
        ≡ some slots)
      × Spread
          (slots_number / carriers_number)
          carriers_number
          (min nb_packets nb_max_packets * nb_replicas)
          slots
unfolding get_time_slots
get_time_slots-Spread draw draw_carrier fuel packets limit replicas slots carriers some_carrier
      small d c word enough =
    let per : ℕ = slots / carriers in
    let max : ℕ = min packets limit * replicas in
    let fits : carriers * per ≤ slots = mul-div-le slots carriers in
    let least = div-le_self slots carriers in
    let narrow : (x : ℕ) → x < per → u16 x < per = λ x h. omega (arith, least) in
    let exact : u16 max ≡ max = omega arith in
    let there : (carriers == 0) ≡ false = ground arith in
    let (tmp, ran, set) =
      draw_slots-Set (λ k. draw k per) (λ x. x < per) max fuel 0 [] (λ k. narrow (draw k per) (d k))
        tt tt (omega arith) enough in
    let spread =
      spread_slots-Spread (λ k. draw_carrier k carriers) per carriers 0 tmp [] c (omega arith)
        set.ascending set.within tt
        (record { ascending = tt; apart = tt; within = tt; count = refl }) in
    (
      spread_slots (λ k. draw_carrier k carriers) per 0 tmp [],
      rw there (
          ap (λ n. steps (λ k. draw k per) (λ k. draw_carrier k carriers) (suc fuel) per n) exact
          ∙ steps-some (λ k. draw k per) (λ k. draw_carrier k carriers) fuel per max tmp ran),
      record {
        ascending = spread.ascending;
        apart = spread.apart;
        within = spread.within;
        count = spread.count ∙ omega (arith, set.count);
      },
    )
