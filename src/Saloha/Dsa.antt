-- ===== src/Saloha/Dsa.antt =====
-- opensand-core/src/dvb/saloha/SlottedAlohaAlgoDsa.cpp: `removeCollisions`. The slots come in the order
-- of the map's keys.
mod Tests
use opensand.Prelude.{
  ℕ, ◌+◌, ◌≡◌, refl, ap, sym, ◌∙◌, Bool, true, false, List, [], ◌∷◌, ◌++◌, append_assoc, append-nil,
  length, arith, if◌then◌else◌, u16, add16, Bool-cases, inl, inr, ◌||◌,
}
use opensand.Saloha.Packet.{Packet, same_packet, has, Round}

unfoldable pub keep : Packet → Round → Round
keep p r = record r {
  accepted_ids = p ∷ r.accepted_ids;
  accepted_packets = r.accepted_packets ++ p ∷ [];
}

unfoldable pub dsa_slot : List Packet → Round → Round
unfolding keep
dsa_slot [] r = r
dsa_slot (p ∷ []) r = if has p r.accepted_ids then r else keep p r
dsa_slot (p ∷ q ∷ ps) r = record r { nbr_collisions = add16 r.nbr_collisions (length (p ∷ q ∷ ps)) }

unfoldable pub dsa_slots : List (List Packet) → Round → Round
unfolding dsa_slot
dsa_slots [] r = r
dsa_slots (s ∷ ss) r = dsa_slots ss (dsa_slot s r)

unfoldable pub cleared : List (List Packet) → List (List Packet)
cleared [] = []
cleared (s ∷ ss) = [] ∷ cleared ss

-- The function, on the slots and the packets accepted before: its variables at the end, and the slots.
unfoldable pub dsa_remove_collisions : List (List Packet) → List Packet → Round × List (List Packet)
unfolding dsa_slots cleared
dsa_remove_collisions slots accepted = (
  dsa_slots slots (record { accepted_ids = []; accepted_packets = accepted; nbr_collisions = 0 }),
  cleared slots,
)

-- The packets that are alone in their slot, and the number of those that are not.
unfoldable pub alone : List (List Packet) → List Packet
alone [] = []
alone ([] ∷ ss) = alone ss
alone ((p ∷ []) ∷ ss) = p ∷ alone ss
alone ((p ∷ q ∷ ps) ∷ ss) = alone ss

unfoldable pub collided : List (List Packet) → ℕ
collided [] = 0
collided ([] ∷ ss) = collided ss
collided ((p ∷ []) ∷ ss) = collided ss
collided ((p ∷ q ∷ ps) ∷ ss) = length (p ∷ q ∷ ps) + collided ss

-- The first packet of each identifier, but for those that were seen.
unfoldable pub firsts : List Packet → List Packet → List Packet
firsts seen [] = []
firsts seen (p ∷ ps) = if has p seen then firsts seen ps else p ∷ firsts (p ∷ seen) ps

-- No packet's identifier is one of `seen` or of an earlier packet.
abbrev pub New : List Packet → List Packet → Type 0
New seen [] = Unit {0}
New seen (p ∷ ps) = (has p seen ≡ false) × New (p ∷ seen) ps

firsts-New : (seen ps : List Packet) → New seen (firsts seen ps)
unfolding firsts
firsts-New seen [] = tt
firsts-New seen (p ∷ ps) = elim (Bool-cases (has p seen)) [
  | inl h ↦ rw h (firsts-New seen ps)
  | inr h ↦ rw h (h, firsts-New (p ∷ seen) ps)
]

single-known : (p : Packet) (r : Round) → has p r.accepted_ids ≡ true → dsa_slot (p ∷ []) r ≡ r
unfolding dsa_slot
single-known p r h = ap (λ b. if b then r else keep p r) h

single-new :
    (p : Packet) (r : Round) → has p r.accepted_ids ≡ false → dsa_slot (p ∷ []) r ≡ keep p r
unfolding dsa_slot
single-new p r h = ap (λ b. if b then r else keep p r) h

slots-firsts :
    (ss : List (List Packet)) (r : Round)
    → ((dsa_slots ss r).accepted_packets ≡ r.accepted_packets ++ firsts r.accepted_ids (alone ss))
      × (u16 (dsa_slots ss r).nbr_collisions ≡ u16 (r.nbr_collisions + collided ss))
unfolding dsa_slots dsa_slot keep alone collided firsts
slots-firsts [] r = (sym (append-nil r.accepted_packets), omega arith)
slots-firsts ([] ∷ ss) r = slots-firsts ss r
slots-firsts ((p ∷ []) ∷ ss) r = elim (Bool-cases (has p r.accepted_ids)) [
  | inl h ↦
      let (e, n) = slots-firsts ss r in
      let same = single-known p r h in
      (
        ap (λ x. (dsa_slots ss x).accepted_packets) same
            ∙ e
            ∙ ap (λ b. r.accepted_packets ++ (if b then known else p ∷ new)) (sym h),
        ap (λ x. u16 (dsa_slots ss x).nbr_collisions) same ∙ n,
      )
  | inr h ↦
      let (e, n) = slots-firsts ss (keep p r) in
      let same = single-new p r h in
      (
        ap (λ x. (dsa_slots ss x).accepted_packets) same
            ∙ e
            ∙ append_assoc r.accepted_packets (p ∷ []) new
            ∙ ap (λ b. r.accepted_packets ++ (if b then known else p ∷ new)) (sym h),
        ap (λ x. u16 (dsa_slots ss x).nbr_collisions) same ∙ n,
      )
]
  where
    known : List Packet
    known = firsts r.accepted_ids (alone ss)

    new : List Packet
    new = firsts (p ∷ r.accepted_ids) (alone ss)
slots-firsts ((p ∷ q ∷ ps) ∷ ss) r =
    let (e, n) =
      slots-firsts ss
        (record r { nbr_collisions = add16 r.nbr_collisions (length (p ∷ q ∷ ps)) }) in
    (e, omega arith)

-- Of the packets that are alone in their slot, the first one of each terminal and identifier is
-- accepted, behind those accepted before and each once; all packets of the other slots are counted as
-- collisions, modulo 2^16.
pub dsa_remove_collisions-firsts :
    (slots : List (List Packet)) (accepted : List Packet)
    → let r = (dsa_remove_collisions slots accepted).0 in
      (r.accepted_packets ≡ accepted ++ firsts [] (alone slots))
      × New [] (firsts [] (alone slots))
      × (u16 r.nbr_collisions ≡ u16 (collided slots))
unfolding dsa_remove_collisions
dsa_remove_collisions-firsts slots accepted =
    let (e, n) =
      slots-firsts slots
        (record { accepted_ids = []; accepted_packets = accepted; nbr_collisions = 0 }) in
    (e, firsts-New [] (alone slots), omega (arith, n))
