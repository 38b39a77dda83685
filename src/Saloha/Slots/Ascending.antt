-- ===== src/Saloha/Slots/Ascending.antt =====
-- The slots that `getTimeSlots` draws, whatever the draws are.
use opensand.Prelude.{
  ℕ, zero, suc, ◌+◌, ◌*◌, ◌/◌, ◌≤◌, ◌<◌, ◌≡◌, refl, ap, false, none, some, List, [], ◌∷◌, ltb,
  length, ◌==◌, arith, Bool-cases, inl, inr, All, u16, min,
}
use opensand.Saloha.Slots.{insert_slot, draw_slots, spread_slots, steps, get_time_slots}

abbrev pub Ascending : List ℕ → Type 0
Ascending [] = Unit
Ascending (x ∷ xs) = All (λ y. x < y) xs × Ascending xs

All-map : (P Q : ℕ → Type 0) → ((x : ℕ) → P x → Q x) → (xs : List ℕ) → All P xs → All Q xs
All-map P Q f [] h = tt
All-map P Q f (x ∷ xs) h = (f x h.0, All-map P Q f xs h.1)

pub insert_slot-All :
    (P : ℕ → Type 0) (s : ℕ) (xs : List ℕ) → All P xs → P s → All P (insert_slot s xs)
unfolding insert_slot
insert_slot-All P s [] h k = (k, tt)
insert_slot-All P s (x ∷ xs) h k =
    let ih = insert_slot-All P s xs h.1 k in
    elim (Bool-cases (s == x)) [
      | inl e ↦ rw e h
      | inr e ↦ elim (Bool-cases (ltb s x)) [
        | inl l ↦ rw (e, l) (k, h)
        | inr l ↦ rw (e, l) (h.0, ih)
      ]
    ]

pub insert_slot-Ascending : (s : ℕ) (xs : List ℕ) → Ascending xs → Ascending (insert_slot s xs)
unfolding insert_slot
insert_slot-Ascending s [] h = (tt, tt)
insert_slot-Ascending s (x ∷ xs) h =
    let ih = insert_slot-Ascending s xs h.1 in
    elim (Bool-cases (s == x)) [
      | inl e ↦ rw e h
      | inr e ↦ elim (Bool-cases (ltb s x)) [
        | inl l ↦
            let below : s < x = ground arith in
            rw (e, l) ((below, All-map (λ y. x < y) (λ y. s < y) (λ y m. omega arith) xs h.0), h)
        | inr l ↦ rw (e, l) (insert_slot-All (λ y. x < y) s xs h.0 (ground arith), ih)
      ]
    ]

pub length-insert_slot :
    (s : ℕ) (xs : List ℕ)
    → (length xs ≤ length (insert_slot s xs)) × (length (insert_slot s xs) ≤ suc (length xs))
unfolding insert_slot
length-insert_slot s [] = omega arith
length-insert_slot s (x ∷ xs) = let ih = length-insert_slot s xs in ground (arith, ih)

module _ (draw : ℕ → ℕ) where
  -- The set of the first draws.
  unfoldable pub drawn : ℕ → ℕ → List ℕ → List ℕ
  unfolding insert_slot
  drawn zero k tmp = tmp
  drawn (suc n) k tmp = drawn n (k + 1) (insert_slot (u16 (draw k)) tmp)

  pub record Set (P : ℕ → Type 0) (n : ℕ) (tmp : List ℕ) : Type 0 where
    pub ascending : Ascending tmp
    pub within : All P tmp
    pub count : length tmp ≡ n

  pub draw_slots-Set :
      (P : ℕ → Type 0) (max fuel k : ℕ) (tmp : List ℕ)
      → ((k : ℕ) → P (u16 (draw k)))
      → Ascending tmp
      → All P tmp
      → length tmp ≤ max
      → max ≤ length (drawn fuel k tmp)
      → (out : List ℕ) × (draw_slots draw (suc fuel) k max tmp ≡ some out) × Set P max out
  unfolding draw_slots drawn
  draw_slots-Set P max zero k tmp d a w few enough =
      let full : ltb (length tmp) max ≡ false = ground arith in
      (tmp, rw (draw_slots, full) refl, record { ascending = a; within = w; count = omega arith })
  draw_slots-Set P max (suc n) k tmp d a w few enough = elim (Bool-cases (ltb (length tmp) max)) [
    | inr l ↦
        (tmp, rw (draw_slots, l) refl, record { ascending = a; within = w; count = ground arith })
    | inl l ↦
        let one = (length-insert_slot (u16 (draw k)) tmp).1 in
        let (out, ran, set) =
          draw_slots-Set P max n (k + 1) (insert_slot (u16 (draw k)) tmp) d
            (insert_slot-Ascending (u16 (draw k)) tmp a)
            (insert_slot-All P (u16 (draw k)) tmp w (d k)) (ground arith) enough in
        (out, rw (draw_slots, l) ran, set)
  ]

module _ (draw : ℕ → ℕ) (per : ℕ) where
  spread_slots-Ascending :
      (k : ℕ) (xs out : List ℕ)
      → Ascending out
      → Ascending (spread_slots draw per k xs out)
        × (length (spread_slots draw per k xs out) ≤ length xs + length out)
  unfolding spread_slots
  spread_slots-Ascending k [] out a = (a, omega arith)
  spread_slots-Ascending k (x ∷ xs) out a =
      let slot : ℕ = u16 (draw k * per + x) in
      let one = (length-insert_slot slot out).1 in
      let (later, count) =
        spread_slots-Ascending (k + 1) xs (insert_slot slot out)
          (insert_slot-Ascending slot out a) in
      (later, omega (arith, one, count))

pub steps-some :
    (draw draw_carrier : ℕ → ℕ) (fuel per max : ℕ) (tmp : List ℕ)
    → draw_slots draw (suc fuel) 0 max [] ≡ some tmp
    → steps draw draw_carrier (suc fuel) per max ≡ some (spread_slots draw_carrier per 0 tmp [])
unfolding steps
steps-some draw draw_carrier fuel per max tmp ran =
    ap (λ o. elim o [ none ↦ none | some t ↦ some (spread_slots draw_carrier per 0 t []) ]) ran

-- If there is a carrier and among the first draws there are as many different ones as slots are wanted,
-- `getTimeSlots` returns, whatever the draws are: its slots are in ascending order, no more than the
-- replicas of the packets that may be sent, and fewer than 2 ^ 16.
pub get_time_slots-Ascending :
    (draw draw_carrier : ℕ → ℕ → ℕ)
    (fuel nb_packets nb_max_packets nb_replicas slots_number carriers_number : ℕ)
    → 1 ≤ carriers_number
    → min nb_packets nb_max_packets * nb_replicas
      ≤ length (drawn (λ k. draw k (slots_number / carriers_number)) fuel 0 [])
    → (slots : List ℕ) × (get_time_slots draw draw_carrier
          (suc fuel)
          nb_packets
          nb_max_packets
          nb_replicas
          slots_number
          carriers_number
        ≡ some slots)
      × Ascending slots
      × (length slots ≤ min nb_packets nb_max_packets * nb_replicas)
      × (length slots < 65536)
unfolding get_time_slots
get_time_slots-Ascending draw draw_carrier fuel packets limit replicas slots carriers some_carrier
      enough =
    let per : ℕ = slots / carriers in
    let max : ℕ = min packets limit * replicas in
    let cut : u16 max ≤ max = omega arith in
    let word : u16 max < 65536 = omega arith in
    let there : (carriers == 0) ≡ false = ground arith in
    let (tmp, ran, set) =
      draw_slots-Set (λ k. draw k per) (λ x. Unit) (u16 max) fuel 0 [] (λ k. tt) tt tt (omega arith)
        (omega (arith, cut, enough)) in
    let count = set.count in
    let (ascending, most) = spread_slots-Ascending (λ k. draw_carrier k carriers) per 0 tmp [] tt in
    (
      spread_slots (λ k. draw_carrier k carriers) per 0 tmp [],
      rw there
          (steps-some (λ k. draw k per) (λ k. draw_carrier k carriers) fuel per (u16 max) tmp ran),
      ascending,
      omega (arith, most, count, cut),
      omega (arith, most, count, word),
    )
