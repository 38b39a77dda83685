-- ===== src/Scheduling/Rcs2/Order.antt =====
-- `macSchedule` loses nothing and keeps the order: what the frames carry and what the FIFOs keep are
-- what the FIFOs held.
pub mod Steps
use opensand.Prelude.{
  ℕ, zero, suc, ◌+◌, ◌≤◌, ◌<◌, ◌≡◌, ◌≢◌, refl, sym, ap, ap₂, ◌∙◌, subst, Bool, true, false, Option,
  none, some, List, [], ◌∷◌, ◌++◌, append_assoc, append-nil, ltb, lt→ltb, length, ◌==◌,
  if◌then◌else◌, arith, Bool-cases, inl, inr, All, u16,
}
use opensand.Access.{return, saloha, access_eq}
use opensand.Fifo.Element.{Element}
use opensand.Fifo.Dvb.{DvbFifo, current_size, pop, pop_from, push_front}
use opensand.Scheduling.Frame.{
  Packet, DvbRcsFrame, get_elem, set_elem, free_space, add_packet, new_frame,
}
use opensand.Scheduling.Rcs2.{
  Handler, Phase, next_fifo, next_encap_pkt, finalize_frame, ended_at_limit, failed, get_chunk,
  add_data, get_fifo, ended, allocate_frame, Sched, in_get_fifo, popped_to, in_next_encap_pkt,
  with_data, put_remaining, encapsulated_to, in_get_chunk, full, added_to, in_add_data, store_frame,
  in_finalize_frame, step,
}

module _ (content packed_content : Packet → List ℕ) where
  abbrev pub optional : (Packet → List ℕ) → Option Packet → List ℕ
  optional of none = []
  optional of (some p) = of p

  -- The data and what remains are the packet, in this order.
  pub record Faithful (H : Handler) : Type 0 where
    pub whole :
        (p : Packet) (space : ℕ) (new_burst : Bool) (c : H.Context) (packed r : Option Packet)
        (c' : H.Context)
        → H.encap_next_packet p space new_burst c ≡ (some (packed, r), c')
        → optional packed_content packed ++ optional content r ≡ content p

  abbrev pub elements : List Element → List ℕ
  elements [] = []
  elements (e ∷ es) = content (get_elem e) ++ elements es

  -- What is to be sent of a FIFO: nothing in slotted Aloha.
  abbrev pub queued : DvbFifo → List ℕ
  queued f = if access_eq f.access_type (return saloha) then [] else elements f.queue

  abbrev pub all_queued : List DvbFifo → List ℕ
  all_queued [] = []
  all_queued (f ∷ fs) = queued f ++ all_queued fs

  abbrev pub packets_content : List Packet → List ℕ
  packets_content [] = []
  packets_content (p ∷ ps) = packed_content p ++ packets_content ps

  abbrev pub frames_content : List DvbRcsFrame → List ℕ
  frames_content [] = []
  frames_content (f ∷ fs) = packets_content f.packets ++ frames_content fs

  pub packets_content-snoc :
      (ps : List Packet) (p : Packet)
      → packets_content (ps ++ p ∷ []) ≡ packets_content ps ++ packed_content p
  packets_content-snoc [] p = append-nil (packed_content p)
  packets_content-snoc (q ∷ ps) p =
      ap (λ l. packed_content q ++ l) (packets_content-snoc ps p)
      ∙ sym (append_assoc (packed_content q) (packets_content ps) (packed_content p))

  pub frames_content-snoc :
      (fs : List DvbRcsFrame) (f : DvbRcsFrame)
      → frames_content (fs ++ f ∷ []) ≡ frames_content fs ++ packets_content f.packets
  frames_content-snoc [] f = append-nil (packets_content f.packets)
  frames_content-snoc (g ∷ fs) f =
      ap (λ l. packets_content g.packets ++ l) (frames_content-snoc fs f)
      ∙ sym
          (append_assoc (packets_content g.packets) (frames_content fs) (packets_content f.packets))

  pub all_queued-snoc :
      (fs : List DvbFifo) (f : DvbFifo)
      → all_queued fs ≡ []
      → queued f ≡ []
      → all_queued (fs ++ f ∷ []) ≡ []
  all_queued-snoc fs f h k = all_snoc fs ∙ ap₂ (λ a b. a ++ b) h k
    where
      all_snoc : (gs : List DvbFifo) → all_queued (gs ++ f ∷ []) ≡ all_queued gs ++ queued f
      all_snoc [] = append-nil (queued f)
      all_snoc (g ∷ gs) =
          ap (λ l. queued g ++ l) (all_snoc gs)
          ∙ sym (append_assoc (queued g) (all_queued gs) (queued f))

  -- The queue is within its limit, which is a 16-bit word.
  pub record Fits (f : DvbFifo) : Type 0 where
    pub within : length f.queue ≤ f.max_size_pkt
    pub word : f.max_size_pkt < 65536

  -- A FIFO that is served, with `n` places kept free.
  pub record Served (n : ℕ) (f : DvbFifo) : Type 0 where
    pub access : access_eq f.access_type (return saloha) ≡ false
    pub within : length f.queue + n ≤ f.max_size_pkt
    pub word : f.max_size_pkt < 65536

  module _ (H : Handler) (held : List ℕ) where
    -- What is in hand, with the FIFO that is served.
    abbrev pub in_hand : Phase → List ℕ
    in_hand (next_encap_pkt f) = elements f.queue
    in_hand (get_chunk f e) = content (get_elem e) ++ elements f.queue
    in_hand (add_data f p) = packed_content p ++ elements f.queue
    in_hand (finalize_frame f) = elements f.queue
    in_hand (ended_at_limit f) = elements f.queue
    in_hand _ = []

    abbrev pub incomplete : Phase → Sched H → List ℕ
    incomplete (ended_at_limit f) s = []
    incomplete _ s = packets_content s.frame.packets

    abbrev pub Serving : Phase → Sched H → Type 0
    Serving (next_fifo f) s = queued f ≡ []
    Serving get_fifo s = Unit
    Serving (next_encap_pkt f) s = Served 0 f
    Serving (get_chunk f e) s = Served 1 f
    Serving (add_data f p) s = Served 0 f
    Serving (finalize_frame f) s = Served 0 f
    Serving (ended_at_limit f) s = Served 0 f
    Serving ended s = s.fifos ≡ []
    Serving (failed f) s = Unit

    pub record Conserved (phase : Phase) (s : Sched H) : Type 0 where
      pub all :
          frames_content s.complete_dvb_frames
            ++ (incomplete phase s ++ (in_hand phase ++ all_queued s.fifos))
          ≡ held
      pub passed : all_queued s.before ≡ []
      pub fit : All Fits s.fifos
      pub serving : Serving phase s

    abbrev pub Holds : Phase × Sched H → Type 0
    Holds (failed f, s) = Unit
    Holds (phase, s) = Conserved phase s
