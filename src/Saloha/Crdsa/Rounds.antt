-- ===== src/Saloha/Crdsa/Rounds.antt =====
-- The rounds of the CRDSA algorithm, on slots that hold packets.
use opensand.Prelude.{
  ◌≡◌, refl, Bool, true, false, none, some, List, [], ◌∷◌, ◌&&◌, ◌||◌, Option-cases, Bool-cases,
  inl, inr, ◌⊎◌,
}
use opensand.Saloha.Packet.{Packet, has, Round}
use opensand.Saloha.Crdsa.{Slot, suppress, settle_slot, crdsa_slot, crdsa_round}

-- Slots as they are filled: every pointer has its packet.
unfoldable pub load : List Packet → Slot
load [] = []
load (p ∷ ps) = some p ∷ load ps

unfoldable pub load_all : List (List Packet) → List Slot
unfolding load
load_all [] = []
load_all (ps ∷ pss) = load ps ∷ load_all pss

-- Whether a packet is alone in its slot.
abbrev pub is_single : List Packet → Bool
is_single (p ∷ []) = true
is_single _ = false

unfoldable pub any_single : List (List Packet) → Bool
any_single [] = false
any_single (ps ∷ pss) = is_single ps || any_single pss

-- A pointer of the slot is null.
abbrev pub Holed : Slot → Type 0
Holed [] = ⊥
Holed (none ∷ es) = Unit {0}
Holed (some p ∷ es) = Holed es

abbrev pub SomeHoled : List Slot → Type 0
SomeHoled [] = ⊥
SomeHoled (s ∷ ss) = Holed s ⊎ SomeHoled ss

suppress-Holed : (ids : List Packet) (s : Slot) → Holed s → suppress ids s ≡ none
unfolding suppress
suppress-Holed ids [] h = absurd h
suppress-Holed ids (none ∷ es) h = refl
suppress-Holed ids (some p ∷ es) h = rw (suppress-Holed ids es h) refl

slot-Holed : (s : Slot) (r : Round) → Holed s → crdsa_slot s r ≡ none
unfolding crdsa_slot
slot-Holed s r h = rw (crdsa_slot, suppress-Holed r.accepted_ids s h) refl

-- A round over slots with a null pointer dereferences it.
pub round-Holed : (ss : List Slot) (r : Round) → SomeHoled ss → crdsa_round ss r ≡ none
unfolding crdsa_round
round-Holed [] r h = absurd h
round-Holed (s ∷ ss) r (inl h) = rw (crdsa_round, slot-Holed s r h) refl
round-Holed (s ∷ ss) r (inr h) = elim (Option-cases (crdsa_slot s r)) [
  | inl e ↦ rw (crdsa_round, e) refl
  | inr (t, e) ↦ rw (crdsa_round, e, round-Holed ss t.1 h) refl
]

-- Without accepted packets nothing is erased, and with them what is left has its packets.
pub suppress-none : (ps : List Packet) → suppress [] (load ps) ≡ some (load ps)
unfolding suppress load has
suppress-none [] = refl
suppress-none (p ∷ ps) = rw (suppress-none ps) refl

suppress-load :
    (ids ps : List Packet) → (qs : List Packet) × (suppress ids (load ps) ≡ some (load qs))
unfolding suppress load
suppress-load ids [] = ([], refl)
suppress-load ids (p ∷ ps) =
    let (qs, e) = suppress-load ids ps in
    elim (Bool-cases (has p ids)) [
      | inl h ↦ (qs, rw (e, h) refl)
      | inr h ↦ (p ∷ qs, rw (e, h) refl)
    ]

settle-load :
    (qs : List Packet) (r : Round) → (t : Slot × Round × Bool) × (settle_slot (load qs) r ≡ some t)
unfolding settle_slot load
settle-load [] r = (_, refl)
settle-load (p ∷ []) r = (_, refl)
settle-load (p ∷ q ∷ qs) r = (_, refl)

slot-load :
    (ps : List Packet) (r : Round) → (t : Slot × Round × Bool) × (crdsa_slot (load ps) r ≡ some t)
unfolding crdsa_slot
slot-load ps r =
    let (qs, e) = suppress-load r.accepted_ids ps in
    let (t, e') = settle-load qs r in (t, rw (crdsa_slot, e) e')

-- A round over filled slots ends.
pub round-load :
    (pss : List (List Packet)) (r : Round)
    → (u : List Slot × Round × Bool) × (crdsa_round (load_all pss) r ≡ some u)
unfolding crdsa_round load_all
round-load [] r = (_, refl)
round-load (ps ∷ pss) r =
    let (t, e) = slot-load ps r in
    let (u, e') = round-load pss t.1 in ((t.0 ∷ u.0, u.1, t.2 && u.2), rw (crdsa_round, e, e') refl)
