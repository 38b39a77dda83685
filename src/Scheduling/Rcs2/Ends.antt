-- ===== src/Scheduling/Rcs2/Ends.antt =====
-- The loop of `macSchedule` ends: each round brings a measure of the FIFOs and of the state down.
use opensand.Prelude.{
  ℕ, zero, suc, ◌+◌, ◌*◌, ◌≤◌, ◌<◌, ◌≡◌, refl, ap, Bool, true, false, Option, none, some, List, [],
  ◌∷◌, ltb, length, ◌==◌, if◌then◌else◌, arith, Bool-cases, inl, inr,
}
use opensand.Access.{return, saloha, access_eq}
use opensand.Fifo.Element.{Element}
use opensand.Fifo.Dvb.{DvbFifo, current_size, pop, pop_from, push_front}
use opensand.Scheduling.Frame.{Packet, DvbRcsFrame, get_elem, free_space, add_packet}
use opensand.Scheduling.Rcs2.{
  Handler, Phase, next_fifo, next_encap_pkt, finalize_frame, ended_at_limit, failed, get_chunk,
  add_data, get_fifo, ended, allocate_frame, Sched, in_get_fifo, popped_to, in_next_encap_pkt,
  with_data, put_remaining, encapsulated_to, in_get_chunk, added_to, in_add_data, store_frame,
  in_finalize_frame, step, is_last, run,
}

-- `left` is what is still to be sent of a packet, such as the bytes of its payload. What remains of a
-- packet has no more left to send than the packet, and less where data was made of it.
pub record Shrinking (H : Handler) : Type 0 where
  pub left : Packet → ℕ
  pub shrinks :
      (p : Packet) (space : ℕ) (new_burst : Bool) (c : H.Context) (packed r : Packet)
      (c' : H.Context)
      → H.encap_next_packet p space new_burst c ≡ (some (some packed, some r), c')
      → left r < left p
  pub keeps :
      (p : Packet) (space : ℕ) (new_burst : Bool) (c : H.Context) (r : Packet) (c' : H.Context)
      → H.encap_next_packet p space new_burst c ≡ (some (none, some r), c')
      → left r ≤ left p

module _ (left : Packet → ℕ) where
  abbrev pub weight : List Element → ℕ
  weight [] = 0
  weight (e ∷ es) = left (get_elem e) + 1 + weight es

  -- The work that is left in the FIFOs.
  abbrev pub work : List DvbFifo → ℕ
  work [] = 0
  work (f ∷ fs) = 1 + weight f.queue + work fs

module _ (H : Handler) (S : Shrinking H) where
  abbrev pub started : Sched H → ℕ
  started s = if s.frame.num_packets == 0 then 0 else 3

  abbrev pub measure : Phase → Sched H → ℕ
  measure (next_fifo f) s = 6 * work S.left (f ∷ s.fifos) + 1 + started s
  measure get_fifo s = 6 * work S.left s.fifos + 4 + started s
  measure (next_encap_pkt f) s = 6 * work S.left (f ∷ s.fifos) + 3 + started s
  measure (get_chunk f e) s =
      6 * (work S.left (f ∷ s.fifos) + S.left (get_elem e) + 1) + 2 + started s
  measure (add_data f p) s = 6 * work S.left (f ∷ s.fifos) + 7
  measure (finalize_frame f) s = 6 * work S.left (f ∷ s.fifos) + 1 + started s
  measure _ s = 0

  in_get_fifo-lt :
      (fs : List DvbFifo) (s : Sched H)
      → s.fifos ≡ fs
      → measure (in_get_fifo H fs s).0 (in_get_fifo H fs s).1 < measure get_fifo s
  unfolding in_get_fifo
  in_get_fifo-lt [] s h = omega arith
  in_get_fifo-lt (f ∷ fs) s h =
      let e = ap (work S.left) h in
      elim (Bool-cases (access_eq f.access_type (return saloha))) [
        | inl a ↦ rw a (omega (arith, e))
        | inr a ↦ rw a (omega (arith, e))
      ]

  popped_to-lt :
      (es : List Element) (f : DvbFifo) (s : Sched H)
      → f.queue ≡ es
      → measure (popped_to H (pop_from es f) s).0 (popped_to H (pop_from es f) s).1
        < measure (next_encap_pkt f) s
  unfolding popped_to pop_from
  popped_to-lt [] f s h = omega arith
  popped_to-lt (e ∷ es) f s h = let w = ap (weight S.left) h in omega (arith, w)

  in_next_encap_pkt-lt :
      (f : DvbFifo) (s : Sched H)
      → measure (in_next_encap_pkt H f s).0 (in_next_encap_pkt H f s).1
        < measure (next_encap_pkt f) s
  unfolding in_next_encap_pkt pop
  in_next_encap_pkt-lt f s = elim (Bool-cases (current_size f == 0)) [
    | inl e ↦ rw e (omega arith)
    | inr e ↦ rw e (popped_to-lt f.queue f s refl)
  ]

  put_remaining-le :
      (r : Packet) (e : Element) (f : DvbFifo)
      → weight S.left (put_remaining (some r) e f).queue ≤ weight S.left f.queue + S.left r + 1
  unfolding put_remaining push_front
  put_remaining-le r e f = elim (Bool-cases (ltb (length f.queue) f.max_size_pkt)) [
    | inl h ↦ rw (weight, h) (omega arith)
    | inr h ↦ rw (weight, h) (omega arith)
  ]

  encapsulated_to-lt :
      (f : DvbFifo) (e : Element) (s : Sched H) (result : Option (Option Packet × Option Packet))
      (c' : H.Context)
      → H.encap_next_packet (get_elem e) (free_space s.frame) (s.frame.num_packets == 0) s.context
        ≡ (result, c')
      → measure (encapsulated_to H f e (result, c') s).0 (encapsulated_to H f e (result, c') s).1
        < measure (get_chunk f e) s
  unfolding encapsulated_to with_data
  encapsulated_to-lt f e s none c' h = omega arith
  encapsulated_to-lt f e s (some (none, none)) c' h = unfold put_remaining in omega arith
  encapsulated_to-lt f e s (some (some p, none)) c' h = unfold put_remaining in omega arith
  encapsulated_to-lt f e s (some (none, some r)) c' h =
      omega (arith, put_remaining-le r e f, S.keeps _ _ _ _ r c' h)
  encapsulated_to-lt f e s (some (some p, some r)) c' h =
      omega (arith, put_remaining-le r e f, S.shrinks _ _ _ _ p r c' h)

  in_add_data-lt :
      (f : DvbFifo) (p : Packet) (s : Sched H)
      → measure (in_add_data H f p s).0 (in_add_data H f p s).1 < measure (add_data f p) s
  unfolding in_add_data
  in_add_data-lt f p s = added_to-lt (add_packet p s.frame)
    where
      added_to-lt :
          (added : Bool × DvbRcsFrame)
          → measure (added_to H f p.total_length added s).0 (added_to H f p.total_length added s).1
            < measure (add_data f p) s
      added_to-lt (false, frame) = unfold added_to in omega arith
      added_to-lt (true, frame) = unfold added_to in ground arith

  in_finalize_frame-lt :
      (burst : ℕ) (f : DvbFifo) (s : Sched H)
      → measure (in_finalize_frame H burst f s).0 (in_finalize_frame H burst f s).1
        < measure (finalize_frame f) s
  unfolding in_finalize_frame store_frame allocate_frame
  in_finalize_frame-lt burst f s = ground arith

  step-lt :
      (burst : ℕ) (phase : Phase) (s : Sched H)
      → is_last phase ≡ false
      → measure (step H burst phase s).0 (step H burst phase s).1 < measure phase s
  unfolding step in_get_chunk
  step-lt burst (next_fifo f) s h = omega arith
  step-lt burst get_fifo s h = in_get_fifo-lt s.fifos s refl
  step-lt burst (next_encap_pkt f) s h = in_next_encap_pkt-lt f s
  step-lt burst (get_chunk f e) s h = encapsulated_to-lt f e s _ _ refl
  step-lt burst (add_data f p) s h = in_add_data-lt f p s
  step-lt burst (finalize_frame f) s h = in_finalize_frame-lt burst f s
  step-lt burst (ended_at_limit f) s h = absurd cc
  step-lt burst (failed f) s h = absurd cc
  step-lt burst ended s h = absurd cc

  -- With enough fuel the loop ends, and what each round keeps holds at its end.
  pub run-ends :
      (burst : ℕ) (P : Phase × Sched H → Type 0)
      → ((phase : Phase) (s : Sched H) → P (phase, s) → P (step H burst phase s))
      → (fuel : ℕ) (phase : Phase) (s : Sched H) → measure phase s < fuel
      → P (phase, s)
      → (phase' : Phase) × (s' : Sched H) × (run H burst fuel phase s ≡ some (phase', s'))
        × (is_last phase' ≡ true)
        × P (phase', s')
  unfolding run
  run-ends burst P keep zero phase s h p = absurd (omega arith)
  run-ends burst P keep (suc fuel) phase s h p = elim (Bool-cases (is_last phase)) [
    | inl e ↦ rw (run, e) (phase, s, refl, e, p)
    | inr e ↦
        let less = step-lt burst phase s e in
        rw (run, e)
          (run-ends burst P keep fuel (step H burst phase s).0 (step H burst phase s).1
            (omega (arith, less)) (keep phase s p))
  ]
