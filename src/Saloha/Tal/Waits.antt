-- ===== src/Saloha/Tal/Waits.antt =====
-- The packets that wait for an acknowledgement: what they weigh, and that they can be sent.
use opensand.Prelude.{
  ℕ, ◌+◌, ◌≡◌, refl, List, [], ◌∷◌, ◌++◌, ◌==◌, ==_refl, arith, Bool-cases, inl, inr, All, ltb,
}
use opensand.Maps.{insert, change}
use opensand.Saloha.Packet.{Packet}
use opensand.Saloha.Tal.{DataPacket, dec_timeout, Waiting, wait_ack}
use opensand.Saloha.Tal.Timeouts.{dec_timeouts, dec_all}
use opensand.Saloha.Tal.Copies.{Sendable}
use opensand.Saloha.Tal.Sends.{heft, sent_heft, wait_all}

abbrev pub waiting_heft : (Packet → ℕ) → Waiting → ℕ
waiting_heft w [] = 0
waiting_heft w ((qos, ps) ∷ m) = heft w ps + waiting_heft w m

-- All packets that wait can be sent.
abbrev pub AllWaiting : Waiting → Type 0
AllWaiting [] = Unit
AllWaiting ((qos, ps) ∷ m) = All Sendable ps × AllWaiting m

pub heft-append :
    (w : Packet → ℕ) (ps qs : List DataPacket) → heft w (ps ++ qs) ≡ heft w ps + heft w qs
heft-append w [] qs = omega arith
heft-append w (p ∷ ps) qs = omega (arith, heft-append w ps qs)

-- Time passes without moving a packet.
heft-dec_timeouts : (w : Packet → ℕ) (ps : List DataPacket) → heft w (dec_timeouts ps) ≡ heft w ps
unfolding dec_timeouts dec_timeout
heft-dec_timeouts w [] = refl
heft-dec_timeouts w (p ∷ ps) = omega (arith, heft-dec_timeouts w ps)

pub waiting_heft-dec_all :
    (w : Packet → ℕ) (m : Waiting) → waiting_heft w (dec_all m) ≡ waiting_heft w m
unfolding dec_all
waiting_heft-dec_all w [] = refl
waiting_heft-dec_all w ((qos, ps) ∷ m) =
    omega (arith, heft-dec_timeouts w ps, waiting_heft-dec_all w m)

dec_timeouts-All : (ps : List DataPacket) → All Sendable ps → All Sendable (dec_timeouts ps)
unfolding dec_timeouts dec_timeout
dec_timeouts-All [] h = tt
dec_timeouts-All (p ∷ ps) h =
    (record { some_byte = h.0.some_byte; fits = h.0.fits }, dec_timeouts-All ps h.1)

pub dec_all-AllWaiting : (m : Waiting) → AllWaiting m → AllWaiting (dec_all m)
unfolding dec_all
dec_all-AllWaiting [] h = tt
dec_all-AllWaiting ((qos, ps) ∷ m) h = (dec_timeouts-All ps h.0, dec_all-AllWaiting m h.1)

-- A packet that waits is one more.
heft-snoc :
    (w : Packet → ℕ) (ps : List DataPacket) (p : DataPacket)
    → heft w (ps ++ p ∷ []) ≡ heft w ps + w p.packet
heft-snoc w [] p = omega arith
heft-snoc w (q ∷ ps) p = omega (arith, heft-snoc w ps p)

waiting_heft-wait_ack :
    (w : Packet → ℕ) (qos : ℕ) (p : DataPacket) (m : Waiting)
    → waiting_heft w (wait_ack qos p m) ≡ waiting_heft w m + w p.packet
unfolding wait_ack change insert
waiting_heft-wait_ack w qos p [] = rw (wait_ack, ==_refl qos) (omega arith)
waiting_heft-wait_ack w qos p ((k, ps) ∷ m) =
    let ih = waiting_heft-wait_ack w qos p m in
    let more = heft-snoc w ps p in
    elim (Bool-cases (k == qos)) [
      | inl e ↦ rw (wait_ack, e, change, e) (omega (arith, more))
      | inr e ↦ elim (Bool-cases (ltb qos k)) [
        | inl l ↦ rw (wait_ack, e, l, change, ==_refl qos) (omega arith)
        | inr l ↦ rw (wait_ack, e, l, change, e) (omega (arith, ih))
      ]
    ]

pub waiting_heft-wait_all :
    (w : Packet → ℕ) (sent : List (ℕ × DataPacket)) (m : Waiting)
    → waiting_heft w (wait_all sent m) ≡ waiting_heft w m + sent_heft w sent
waiting_heft-wait_all w [] m = omega arith
waiting_heft-wait_all w ((qos, p) ∷ ps) m =
    omega (arith, waiting_heft-wait_ack w qos p m, waiting_heft-wait_all w ps (wait_ack qos p m))

wait_ack-AllWaiting :
    (qos : ℕ) (p : DataPacket) (m : Waiting)
    → Sendable p
    → AllWaiting m
    → AllWaiting (wait_ack qos p m)
unfolding wait_ack change insert
wait_ack-AllWaiting qos p [] h k = rw (wait_ack, ==_refl qos) ((h, tt), tt)
wait_ack-AllWaiting qos p ((key, ps) ∷ m) h k =
    let ih = wait_ack-AllWaiting qos p m h k.1 in
    elim (Bool-cases (key == qos)) [
      | inl e ↦ rw (wait_ack, e, change, e) (All-last ps k.0, k.1)
      | inr e ↦ elim (Bool-cases (ltb qos key)) [
        | inl l ↦ rw (wait_ack, e, l, change, ==_refl qos) ((h, tt), k)
        | inr l ↦ rw (wait_ack, e, l, change, e) (k.0, ih)
      ]
    ]
  where
    All-last : (qs : List DataPacket) → All Sendable qs → All Sendable (qs ++ p ∷ [])
    All-last [] a = (h, tt)
    All-last (q ∷ qs) a = (a.0, All-last qs a.1)

pub wait_all-AllWaiting :
    (sent : List (ℕ × DataPacket)) (m : Waiting)
    → All (λ e. Sendable e.1) sent
    → AllWaiting m
    → AllWaiting (wait_all sent m)
wait_all-AllWaiting [] m h k = k
wait_all-AllWaiting ((qos, p) ∷ ps) m h k =
    wait_all-AllWaiting ps (wait_ack qos p m) h.1 (wait_ack-AllWaiting qos p m h.0 k)
