-- ===== src/Scheduling/Rcs2/Tests.antt =====
-- The scheduler at concrete inputs, with a plug-in that cuts packets into fragments.
use opensand.Prelude.{
  true, ltb, ℕ, zero, suc, ◌+◌, ◌-◌, ◌≤◌, ◌≡◌, refl, sym, ap, ◌∙◌, Bool, Option, none, some, List,
  [], ◌∷◌, ◌++◌, map, append-nil, leb, replicate, ◌==◌, if◌then◌else◌, arith, Bool-cases, inl, inr,
}
use opensand.Access.{ReturnAccess, return, dama_rbdc, dama_vbdc, saloha, access_eq}
use opensand.Fifo.Dvb.{DvbFifo, no_stats}
use opensand.Scheduling.Frame.{Packet}
use opensand.Scheduling.Rcs2.{Handler, Sched, schedule}
use opensand.Scheduling.Rcs2.Ends.{Shrinking}
use opensand.Scheduling.Rcs2.Limits.{Filling}
use opensand.Scheduling.Rcs2.Order.{Faithful}
use opensand.Scheduling.Rcs2.Delivery.{Delivered, schedule-Delivered}

-- Fragments with a header of 3 bytes: below 4 bytes of space nothing is sent. A packet that fits is taken
-- whole, and an empty one as a byte of padding; of any other as much is taken as fits, and the rest gets a
-- header of its own.
abbrev cut : Packet → ℕ → Option Packet × Option Packet
cut p space =
    if ltb space 4
    then (none, some p)
    else if p.total_length == 0
    then (some record { ident = 0; total_length = 1 }, none)
    else if leb p.total_length space
    then (some p, none)
    else (
      some record p { total_length = space },
      some record p { total_length = p.total_length - (space - 3) },
    )

abbrev cutter : Handler
cutter = record {
  Context = Unit;
  encap_next_packet = λ p space new_burst c. (some (cut p space), tt);
}

abbrev content : Packet → List ℕ
content p = if p.ident == 0 then [] else replicate (p.total_length - 3) p.ident

content-empty : (p : Packet) → p.total_length ≡ 0 → [] ≡ content p
content-empty p h = elim (Bool-cases (p.ident == 0)) [
  | inl e ↦ rw e refl
  | inr e ↦
      let none_left : p.total_length - 3 ≡ 0 = omega (arith, h) in
      rw e (sym (ap (λ n. replicate n p.ident) none_left))
]

cutter_shrinking : Shrinking cutter
cutter_shrinking = record {
  left = λ p. p.total_length;
  shrinks = λ p space new_burst c packed r c' h. ground arith;
  keeps = λ p space new_burst c r c' h. ground arith;
}

cutter_filling : Filling cutter
cutter_filling = record {
  least = 4;
  succeeds = λ p space new_burst c c' h. cc;
  fits = λ p space new_burst c packed r c' h. ground arith;
  starts = λ p space c r c' pos h. ground arith;
}

replicate-add : (a b x : ℕ) → replicate a x ++ replicate b x ≡ replicate (a + b) x
replicate-add zero b x = ap (λ n. replicate n x) (omega arith)
replicate-add (suc a) b x =
    let ih = replicate-add a b x in
    let next : suc (a + b) ≡ suc a + b = omega arith in
    ap (λ l. x ∷ l) ih ∙ ap (λ n. replicate n x) next

content-cut :
    (ident len space : ℕ)
    → 4 ≤ space
    → space ≤ len
    → content record { ident = ident; total_length = space }
        ++ content record { ident = ident; total_length = len - (space - 3) }
      ≡ content record { ident = ident; total_length = len }
content-cut ident len space k h = elim (Bool-cases (ident == 0)) [
  | inl e ↦ rw e refl
  | inr e ↦
      let whole : (space - 3) + (len - (space - 3) - 3) ≡ len - 3 = omega arith in
      rw e (
        replicate-add (space - 3) (len - (space - 3) - 3) ident ∙ ap (λ n. replicate n ident) whole)
]

abbrev part : Option Packet → List ℕ
part none = []
part (some p) = content p

cut-whole : (p : Packet) (space : ℕ) → part (cut p space).0 ++ part (cut p space).1 ≡ content p
cut-whole p space = elim (Bool-cases (ltb space 4)) [
  | inl e ↦ rw e refl
  | inr e ↦ elim (Bool-cases (p.total_length == 0)) [
    | inl z ↦ rw (e, z) (content-empty p (ground arith))
    | inr z ↦ elim (Bool-cases (leb p.total_length space)) [
      | inl l ↦ rw (e, z, l) (append-nil (content p))
      | inr l ↦
          rw (e, z, l) (content-cut p.ident p.total_length space (ground arith) (ground arith))
    ]
  ]
]

cutter-Faithful : Faithful content content cutter
cutter-Faithful = record {
  whole = λ p space new_burst c packed r c' h. whole p space packed r (cc);
}
  where
    whole :
        (p : Packet) (space : ℕ) (packed r : Option Packet)
        → cut p space ≡ (packed, r)
        → part packed ++ part r ≡ content p
    whole p space packed r e = sym (ap (λ q. part q.0 ++ part q.1) e) ∙ cut-whole p space

abbrev fifo : ReturnAccess → List ℕ → DvbFifo
fifo access lens = record {
  queue = map (λ len. record { ident = len; total_length = len; tick_in = 0; tick_out = 0 }) lens;
  fifo_priority = 0;
  access_type = return access;
  vcm_id = 0;
  new_size_pkt = 0;
  cur_length_bytes = 0;
  new_length_bytes = 0;
  max_size_pkt = 10;
  carrier_id = 0;
  stats = no_stats;
  cni = 0;
}

abbrev fifos : List DvbFifo
fifos = fifo dama_rbdc (3 ∷ 9 ∷ []) ∷ fifo saloha (9 ∷ []) ∷ fifo dama_vbdc (2 ∷ 7 ∷ []) ∷ []

-- Bursts of 10 bytes, and an allocation of 160 bits.
schedule-Delivered_example :
    (s : Sched cutter) × (schedule cutter 80 400 fifos [] 160 tt ≡ some (true, some s))
    × Delivered content content cutter 80 160 [] fifos s
unfolding cutter_filling cutter_shrinking
schedule-Delivered_example =
    schedule-Delivered content content cutter 80 160 [] fifos 400 tt cutter_shrinking cutter_filling
      cutter-Faithful (omega arith) (omega arith) (omega arith) (omega arith) (omega arith)
      (omega arith)

abbrev lengths : Option (Bool × Option (Sched cutter)) → List (List (ℕ × ℕ))
lengths (some (ok, some s)) =
    map (λ f. map (λ p. (p.ident, p.total_length)) f.packets) s.complete_dvb_frames
lengths _ = []

-- The first packet and a fragment of the second; its rest and the next FIFO's first; the last packet.
three_frames :
    lengths (schedule cutter 80 400 fifos [] 160 tt)
    ≡ ((3, 3) ∷ (9, 7) ∷ []) ∷ ((9, 5) ∷ (2, 2) ∷ []) ∷ ((7, 7) ∷ []) ∷ []
unfolding schedule access_eq
three_frames = refl

-- A packet is sent without any allocation.
nothing_allocated :
    lengths (schedule cutter 40 400 (fifo dama_rbdc (3 ∷ []) ∷ []) [] 0 tt) ≡ ((3, 3) ∷ []) ∷ []
unfolding schedule access_eq
nothing_allocated = refl
