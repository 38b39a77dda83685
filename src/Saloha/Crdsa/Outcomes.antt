-- ===== src/Saloha/Crdsa/Outcomes.antt =====
-- How `removeCollisions` of the CRDSA algorithm ends.
use opensand.Prelude.{
  ℕ, suc, ◌+◌, ◌≡◌, refl, ap, ◌∙◌, Bool, true, false, none, some, List, [], ◌∷◌, length, ◌&&◌,
  add16, u16, arith, inl, inr,
}
use opensand.Saloha.Packet.{Packet, Round}
use opensand.Saloha.Dsa.{keep, collided}
use opensand.Saloha.Crdsa.{
  Slot, suppress, settle_slot, crdsa_slot, crdsa_round, count_collisions, finished, crashed,
  crdsa_loop, crdsa_remove_collisions,
}
use opensand.Saloha.Crdsa.Rounds.{
  load, load_all, any_single, SomeHoled, round-Holed, suppress-none, round-load,
}

-- Before a packet is accepted, a slot is settled as it was filled.
slot-first :
    (ps : List Packet) (r : Round)
    → r.accepted_ids ≡ []
    → crdsa_slot (load ps) r ≡ settle_slot (load ps) r
unfolding crdsa_slot
slot-first ps r h =
    let e : suppress r.accepted_ids (load ps) ≡ some (load ps) =
      ap (λ ids. suppress ids (load ps)) h ∙ suppress-none ps in
    rw (crdsa_slot, e) refl

slot-empty : (r : Round) → crdsa_slot [] r ≡ some ([], r, true)
unfolding crdsa_slot suppress settle_slot
slot-empty r = refl

slot-single :
    (p : Packet) (r : Round)
    → r.accepted_ids ≡ []
    → crdsa_slot (load (p ∷ [])) r ≡ some (none ∷ [], keep p r, false)
slot-single p r k = slot-first (p ∷ []) r k ∙ (unfold settle_slot load in refl)

slot-crowd :
    (p q : Packet) (ps : List Packet) (r : Round)
    → r.accepted_ids ≡ []
    → crdsa_slot (load (p ∷ q ∷ ps)) r ≡ some (load (p ∷ q ∷ ps), r, true)
slot-crowd p q ps r k = slot-first (p ∷ q ∷ ps) r k ∙ (unfold settle_slot load in refl)

round-step :
    (s : Slot) (ss : List Slot) (r : Round) (t : Slot × Round × Bool) (u : List Slot × Round × Bool)
    → crdsa_slot s r ≡ some t
    → crdsa_round ss t.1 ≡ some u
    → crdsa_round (s ∷ ss) r ≡ some (t.0 ∷ u.0, u.1, t.2 && u.2)
unfolding crdsa_round
round-step s ss r t u e e' = rw (crdsa_round, e, e') refl

-- A round that begins with no accepted packet: if a packet is alone in its slot, one is accepted and
-- its pointer is left null.
round-single :
    (pss : List (List Packet)) (r : Round)
    → any_single pss ≡ true
    → r.accepted_ids ≡ []
    → (u : List Slot × Round × Bool) × (crdsa_round (load_all pss) r ≡ some u)
      × (u.2 ≡ false)
      × SomeHoled u.0
unfolding any_single load_all load
round-single [] r h k = absurd (ground arith)
round-single ([] ∷ pss) r h k =
    let (u, e, s, v) = round-single pss r h k in
    (_, round-step [] (load_all pss) r _ u (slot-empty r) e, s, inr v)
round-single ((p ∷ []) ∷ pss) r h k =
    let (u, e) = round-load pss (keep p r) in
    (_, round-step (load (p ∷ [])) (load_all pss) r _ u (slot-single p r k) e, refl, inl tt)
round-single ((p ∷ q ∷ ps) ∷ pss) r h k =
    let (u, e, s, v) = round-single pss r h k in
    (_, round-step (load (p ∷ q ∷ ps)) (load_all pss) r _ u (slot-crowd p q ps r k) e, s, inr v)

-- If none is alone, the round changes nothing and is the last one.
round-none :
    (pss : List (List Packet)) (r : Round)
    → any_single pss ≡ false
    → r.accepted_ids ≡ []
    → crdsa_round (load_all pss) r ≡ some (load_all pss, r, true)
unfolding any_single load_all load
round-none [] r h k = unfold crdsa_round in refl
round-none ([] ∷ pss) r h k =
    round-step [] (load_all pss) r _ _ (slot-empty r) (round-none pss r h k)
round-none ((p ∷ []) ∷ pss) r h k = absurd (ground arith)
round-none ((p ∷ q ∷ ps) ∷ pss) r h k =
    round-step (load (p ∷ q ∷ ps)) (load_all pss) r _ _ (slot-crowd p q ps r k)
      (round-none pss r h k)

length-load : (ps : List Packet) → length (load ps) ≡ length ps
unfolding load
length-load [] = refl
length-load (p ∷ ps) = ap suc (length-load ps)

counted :
    (pss : List (List Packet)) (n : ℕ)
    → u16 (count_collisions (load_all pss) n) ≡ u16 (n + collided pss)
unfolding count_collisions load_all collided load
counted [] n = omega arith
counted ([] ∷ pss) n = counted pss n
counted ((p ∷ []) ∷ pss) n = counted pss n
counted ((p ∷ q ∷ ps) ∷ pss) n =
    ground (arith, counted pss (add16 n (length (load (p ∷ q ∷ ps)))), length-load ps)

-- If a packet is alone in its slot, the first round accepts it and a later one dereferences the null
-- pointer that is left. If none is, the first round is the last: nothing is accepted, and all packets
-- that share a slot are counted as collisions, modulo 2^16.
pub crdsa_outcomes :
    (fuel : ℕ) (pss : List (List Packet)) (accepted : List Packet)
    → (any_single pss ≡ true
        → crdsa_remove_collisions (suc (suc fuel)) (load_all pss) accepted ≡ crashed)
      × (any_single pss ≡ false
          → (r : Round) × (crdsa_remove_collisions (suc fuel) (load_all pss) accepted ≡ finished r)
            × (r.accepted_packets ≡ accepted)
            × (u16 r.nbr_collisions ≡ u16 (collided pss)))
unfolding crdsa_remove_collisions crdsa_loop
crdsa_outcomes fuel pss accepted =
    let start : Round = record {
      accepted_ids = [];
      accepted_packets = accepted;
      nbr_collisions = 0;
    } in
    (
      λ h.
          let (u, e, s, v) = round-single pss start h refl in
          rw (crdsa_loop, e, s, round-Holed u.0 u.1 v) refl,
      λ h. (
        record start { nbr_collisions = count_collisions (load_all pss) 0 },
        rw (crdsa_loop, round-none pss start h refl) refl,
        refl,
        omega (arith, counted pss 0),
      ),
    )
