-- ===== src/Saloha/Tal/Settled.antt =====
-- Which packets acknowledgements take, and which acknowledgements are done with.
use opensand.Prelude.{
  ℕ, ◌≡◌, refl, Bool, true, false, List, [], ◌∷◌, ◌++◌, ◌==◌, ◌&&◌, ◌||◌, Bool-cases, inl, inr, ◌⊎◌,
  All,
}
use opensand.Saloha.Tal.{DataPacket, Waiting}
use opensand.Saloha.Tal.Acks.{Control, acknowledges, waiting_at}
use opensand.Saloha.Tal.Taken.{Free}

-- Some control packet for the terminal acknowledges the packet.
abbrev pub is_acknowledged : ℕ → List Control → DataPacket → Bool
is_acknowledged tal_id [] p = false
is_acknowledged tal_id (c ∷ cs) p =
    ((c.terminal_id == tal_id && c.is_ack) && acknowledges c p) || is_acknowledged tal_id cs p

pub or_right : (a b : Bool) → b ≡ true → (a || b) ≡ true
or_right true b h = refl
or_right false b h = h

abbrev pub takes_one : Control → List DataPacket → Bool
takes_one c [] = false
takes_one c (p ∷ ps) = acknowledges c p || takes_one c ps

-- An acknowledgement took a packet, or there is none left that it acknowledges.
abbrev pub Settled : ℕ → Waiting → List DataPacket → Control → Type 0
Settled tal_id m acked c =
    (c.terminal_id == tal_id && c.is_ack) ≡ true
    → (takes_one c acked ≡ true) ⊎ Free c (waiting_at c.qos m)

pub or_left : (a b : Bool) → (a || false) ≡ true → (a || b) ≡ true
or_left true b h = refl
or_left false b h = absurd cc

pub takes_left :
    (c : Control) (ps qs : List DataPacket) → takes_one c ps ≡ true → takes_one c (ps ++ qs) ≡ true
takes_left c [] qs h = absurd cc
takes_left c (p ∷ ps) qs h = elim (Bool-cases (acknowledges c p)) [
  | inl e ↦ rw e refl
  | inr e ↦ rw e (takes_left c ps qs (rw e at h))
]

takes_right :
    (c : Control) (ps qs : List DataPacket) → takes_one c qs ≡ true → takes_one c (ps ++ qs) ≡ true
takes_right c [] qs h = h
takes_right c (p ∷ ps) qs h = or_right (acknowledges c p) _ (takes_right c ps qs h)

pub Settled-later :
    (tal_id : ℕ) (m : Waiting) (ps qs : List DataPacket) (cs : List Control)
    → All (Settled tal_id m qs) cs
    → All (Settled tal_id m (ps ++ qs)) cs
Settled-later tal_id m ps qs [] h = tt
Settled-later tal_id m ps qs (c ∷ cs) h = (
  (λ mine. elim (h.0 mine) [ inl t ↦ inl (takes_right c ps qs t) | inr free ↦ inr free ]),
  Settled-later tal_id m ps qs cs h.1,
)

pub All-both :
    (f : DataPacket → Bool) (ps qs : List DataPacket)
    → All (λ p. f p ≡ true) ps
    → All (λ p. f p ≡ true) qs
    → All (λ p. f p ≡ true) (ps ++ qs)
All-both f [] qs h k = k
All-both f (p ∷ ps) qs h k = (h.0, All-both f ps qs h.1 k)

pub later :
    (f g : DataPacket → Bool)
    → ((p : DataPacket) → f p ≡ true → g p ≡ true)
    → (ps : List DataPacket) → All (λ p. f p ≡ true) ps
    → All (λ p. g p ≡ true) ps
later f g h [] k = tt
later f g h (p ∷ ps) k = (h p k.0, later f g h ps k.1)
