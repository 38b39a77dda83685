-- ===== src/Scheduling/Rcs2/Order/Steps.antt =====
-- Each round of the loop keeps all content, in its order.
use opensand.Prelude.{
  ℕ, ◌+◌, ◌/◌, add16, ◌<◌, ◌≡◌, ◌≢◌, refl, sym, ap, ◌∙◌, subst, true, false, Option, none, some,
  List, [], ◌∷◌, ◌++◌, append_assoc, ltb, lt→ltb, length, ◌==◌, arith, Bool-cases, inl, inr, All,
  u16,
}
use opensand.Access.{return, saloha, access_eq}
use opensand.Fifo.Element.{Element}
use opensand.Fifo.Dvb.{DvbFifo, current_size, pop, pop_from, push_front}
use opensand.Scheduling.Frame.{Packet, get_elem, free_space, add_packet}
use opensand.Scheduling.Rcs2.{
  Handler, Phase, next_fifo, next_encap_pkt, finalize_frame, ended_at_limit, failed, get_chunk,
  add_data, get_fifo, ended, allocate_frame, Sched, in_get_fifo, popped_to, in_next_encap_pkt,
  with_data, put_remaining, encapsulated_to, in_get_chunk, full, added_to, in_add_data, store_frame,
  in_finalize_frame, step,
}
use opensand.Scheduling.Rcs2.Limits.{Filling}
use opensand.Scheduling.Rcs2.Order.{
  optional, Faithful, elements, queued, all_queued, packets_content, frames_content,
  packets_content-snoc, frames_content-snoc, all_queued-snoc, Fits, Served, Conserved, Holds,
}

module _ (content packed_content : Packet → List ℕ) (H : Handler) (held : List ℕ) where
  abbrev C : Phase → Sched H → Type 0
  C phase s = Conserved content packed_content H held phase s

  abbrev sent : Sched H → List ℕ
  sent s = frames_content content packed_content s.complete_dvb_frames

  abbrev filled : Sched H → List ℕ
  filled s = packets_content content packed_content s.frame.packets

  abbrev waiting : List DvbFifo → List ℕ
  waiting fs = all_queued content packed_content fs

  abbrev Result : Phase × Sched H → Type 0
  Result r = Holds content packed_content H held r

  queued-saloha :
      (f : DvbFifo)
      → access_eq f.access_type (return saloha) ≡ true
      → queued content packed_content f ≡ []
  queued-saloha f h = rw h refl

  queued-served :
      (f : DvbFifo)
      → access_eq f.access_type (return saloha) ≡ false
      → queued content packed_content f ≡ elements content packed_content f.queue
  queued-served f h = rw h refl

  in_get_fifo-Holds :
      (fs : List DvbFifo) (s : Sched H) → s.fifos ≡ fs → C get_fifo s → Result (in_get_fifo H fs s)
  unfolding in_get_fifo
  in_get_fifo-Holds [] s h c = record { all = c.all; passed = c.passed; fit = c.fit; serving = h }
  in_get_fifo-Holds (f ∷ fs) s h c =
      let fit : All (Fits content packed_content) (f ∷ fs) =
        subst (All (Fits content packed_content)) h c.fit in
      let whole = ap (λ l. sent s ++ (filled s ++ waiting l)) (sym h) ∙ c.all in
      elim (Bool-cases (access_eq f.access_type (return saloha))) [
        | inl a ↦ rw a record {
          all =
              ap (λ q. sent s ++ (filled s ++ (q ++ waiting fs))) (sym (queued-saloha f a)) ∙ whole;
          passed = c.passed;
          fit = fit.1;
          serving = queued-saloha f a;
        }
        | inr a ↦ rw a record {
          all =
              ap (λ q. sent s ++ (filled s ++ (q ++ waiting fs))) (sym (queued-served f a)) ∙ whole;
          passed = c.passed;
          fit = fit.1;
          serving = record {
            access = a;
            within = let w = fit.0.within in omega (arith, w);
            word = fit.0.word;
          };
        }
      ]

  skipped : (f : DvbFifo) (s : Sched H) → f.queue ≡ [] → C (next_encap_pkt f) s → C (next_fifo f) s
  skipped f s h c = record {
    all =
        ap (λ q. sent s ++ (filled s ++ (q ++ waiting s.fifos)))
          (sym (ap (elements content packed_content) h))
        ∙ c.all;
    passed = c.passed;
    fit = c.fit;
    serving = queued-served f c.serving.access ∙ ap (elements content packed_content) h;
  }

  popped_to-Holds :
      (es : List Element) (f : DvbFifo) (s : Sched H)
      → f.queue ≡ es
      → C (next_encap_pkt f) s
      → Result (popped_to H (pop_from es f) s)
  unfolding popped_to pop_from
  popped_to-Holds [] f s h c = skipped f s h c
  popped_to-Holds (e ∷ es) f s h c =
      let w = c.serving.within in
      let l = ap length h in
      record {
        all =
            ap (λ q. sent s ++ (filled s ++ (q ++ waiting s.fifos)))
              (sym (ap (elements content packed_content) h))
            ∙ c.all;
        passed = c.passed;
        fit = c.fit;
        serving = record {
          access = c.serving.access;
          within = omega (arith, w, l);
          word = c.serving.word;
        };
      }

  no_elements : (es : List Element) → length es < 65536 → (u16 (length es) == 0) ≡ true → es ≡ []
  no_elements [] h k = refl
  no_elements (e ∷ es) h k = absurd (ground arith)

  in_next_encap_pkt-Holds :
      (f : DvbFifo) (s : Sched H) → C (next_encap_pkt f) s → Result (in_next_encap_pkt H f s)
  unfolding in_next_encap_pkt pop current_size
  in_next_encap_pkt-Holds f s c =
      let w = c.serving.within in
      let m = c.serving.word in
      elim (Bool-cases (u16 (length f.queue) == 0)) [
        | inl e ↦ rw e (skipped f s (no_elements f.queue (omega (arith, w, m)) e) c)
        | inr e ↦ rw e (popped_to-Holds f.queue f s refl c)
      ]

  -- With a place kept free, what remains is put back.
  put_remaining-Served :
      (r : Option Packet) (e : Element) (f : DvbFifo)
      → Served content packed_content 1 f
      → Served content packed_content 0 (put_remaining r e f)
        × (elements content packed_content (put_remaining r e f).queue
            ≡ optional content packed_content content r ++ elements content packed_content f.queue)
  unfolding put_remaining push_front
  put_remaining-Served none e f v =
      let w = v.within in
      (record { access = v.access; within = omega (arith, w); word = v.word }, refl)
  put_remaining-Served (some p) e f v =
      let w = v.within in
      rw (put_remaining, lt→ltb (length f.queue) f.max_size_pkt (omega (arith, w)))
        (record { access = v.access; within = omega (arith, w); word = v.word }, refl)

  encapsulated_to-Holds :
      (W : Faithful content packed_content H) (f : DvbFifo) (e : Element) (s : Sched H)
      (result : Option (Option Packet × Option Packet)) (c' : H.Context)
      → H.encap_next_packet (get_elem e) (free_space s.frame) (s.frame.num_packets == 0) s.context
        ≡ (result, c')
      → result ≢ none
      → C (get_chunk f e) s
      → Result (encapsulated_to H f e (result, c') s)
  unfolding encapsulated_to with_data
  encapsulated_to-Holds W f e s none c' h ok c = absurd (ok refl)
  encapsulated_to-Holds W f e s (some (packed, r)) c' h ok c =
      let w = W.whole _ _ _ _ packed r c' h in
      let (served, put) = put_remaining-Served r e f c.serving in
      let front : optional content packed_content packed_content packed
            ++ elements content packed_content (put_remaining r e f).queue
          ≡ content (get_elem e) ++ elements content packed_content f.queue =
        ap (λ l. optional content packed_content packed_content packed ++ l) put
        ∙ sym (
            append_assoc (optional content packed_content packed_content packed)
              (optional content packed_content content r) (elements content packed_content f.queue))
        ∙ ap (λ l. l ++ elements content packed_content f.queue) w in
      let all = ap (λ l. sent s ++ (filled s ++ (l ++ waiting s.fifos))) front ∙ c.all in
      go packed all served
    where
      go :
          (packed : Option Packet)
          → sent s
              ++ (filled s
                  ++ ((optional content packed_content packed_content packed
                        ++ elements content packed_content (put_remaining r e f).queue)
                      ++ waiting s.fifos))
            ≡ held
          → Served content packed_content 0 (put_remaining r e f)
          → Result (with_data packed (put_remaining r e f), record s { context = c' })
      go none all served = record { all = all; passed = c.passed; fit = c.fit; serving = served }
      go (some p) all served = record {
        all = all;
        passed = c.passed;
        fit = c.fit;
        serving = served;
      }

  added_to-Holds :
      (f : DvbFifo) (p : Packet) (s : Sched H) → C (add_data f p) s → Result (in_add_data H f p s)
  unfolding in_add_data add_packet added_to
  added_to-Holds f p s c = elim (Bool-cases (ltb (free_space s.frame) p.total_length)) [
    | inl e ↦ rw e tt
    | inr e ↦
        let before = filled s in
        let after = elements content packed_content f.queue ++ waiting s.fifos in
        let frame = (add_packet p s.frame).1 in
        let s' =
          (added_to H f p.total_length
            (
              true,
              record s.frame {
                total_length = s.frame.total_length + p.total_length;
                message_length = add16 s.frame.message_length (u16 p.total_length);
                num_packets = add16 s.frame.num_packets 1;
                packets = s.frame.packets ++ p ∷ [];
              },
            )
            s).1 in
        let moved =
          ap (λ l. l ++ after) (packets_content-snoc content packed_content s.frame.packets p)
          ∙ append_assoc before (packed_content p) after
          ∙ ap (λ l. before ++ l)
              (sym (
                append_assoc (packed_content p) (elements content packed_content f.queue)
                  (waiting s.fifos))) in
        let all = ap (λ l. sent s ++ l) moved ∙ c.all in
        elim (Bool-cases (full H s')) [
          | inl e' ↦
              rw (e, e') record { all = all; passed = c.passed; fit = c.fit; serving = c.serving }
          | inr e' ↦
              rw (e, e') record { all = all; passed = c.passed; fit = c.fit; serving = c.serving }
        ]
  ]

  in_finalize_frame-Holds :
      (burst : ℕ) (f : DvbFifo) (s : Sched H)
      → C (finalize_frame f) s
      → Result (in_finalize_frame H burst f s)
  unfolding in_finalize_frame store_frame allocate_frame
  in_finalize_frame-Holds burst f s c = elim (Bool-cases (s.frame.num_packets == 0)) [
    | inl e ↦ rw e tt
    | inr e ↦
        let after = elements content packed_content f.queue ++ waiting s.fifos in
        let all =
          ap (λ l. l ++ after)
            (frames_content-snoc content packed_content s.complete_dvb_frames s.frame)
          ∙ append_assoc (sent s) (filled s) after
          ∙ c.all in
        elim (Bool-cases ((store_frame H s).remaining_allocation_b == 0)) [
          | inl z ↦
              rw (e, z) record { all = all; passed = c.passed; fit = c.fit; serving = c.serving }
          | inr z ↦ elim (Bool-cases (burst / 8 == 0)) [
            | inl b ↦ rw (e, z, b) tt
            | inr b ↦
                rw (e, z, b)
                  record { all = all; passed = c.passed; fit = c.fit; serving = c.serving }
          ]
        ]
  ]

  pub step-Holds :
      (W : Faithful content packed_content H) (F : Filling H) (burst : ℕ) (phase : Phase)
      (s : Sched H)
      → Result (phase, s)
      → Result (step H burst phase s)
  unfolding step in_get_chunk
  step-Holds W F burst (next_fifo f) s c = record {
    all = c.all;
    passed = all_queued-snoc content packed_content s.before f c.passed c.serving;
    fit = c.fit;
    serving = tt;
  }
  step-Holds W F burst get_fifo s c = in_get_fifo-Holds s.fifos s refl c
  step-Holds W F burst (next_encap_pkt f) s c = in_next_encap_pkt-Holds f s c
  step-Holds W F burst (get_chunk f e) s c =
      let call =
        H.encap_next_packet (get_elem e) (free_space s.frame) (s.frame.num_packets == 0)
          s.context in
      encapsulated_to-Holds W f e s call.0 call.1 refl
        (λ n. F.succeeds _ _ _ _ call.1 (ap (λ r. (r, call.1)) n)) c
  step-Holds W F burst (add_data f p) s c = added_to-Holds f p s c
  step-Holds W F burst (finalize_frame f) s c = in_finalize_frame-Holds burst f s c
  step-Holds W F burst (ended_at_limit f) s c = c
  step-Holds W F burst (failed f) s c = c
  step-Holds W F burst ended s c = c
