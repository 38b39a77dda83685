-- ===== src/Dama/Agent/Volume.antt =====
-- The volume that a terminal asks for, and what its FIFOs hold.
use opensand.Prelude.{
  ℕ, ◌+◌, ◌*◌, ◌≤◌, ◌<◌, ◌≡◌, refl, true, List, [], ◌∷◌, if◌then◌else◌, u32, arith, Bool-cases, inl,
  inr, All, ltb, some, min, ◌/◌,
}
use opensand.Access.{ReturnAccess, return, access_eq, dama_vbdc}
use opensand.Fifo.Element.{bytes}
use opensand.Fifo.Dvb.{DvbFifo, current_data_length_lem}
use opensand.Fifo.Dvb.Inv.{Counted}
use opensand.Dama.Agent.{Agent, mac_buffer_length, compute_vbdc_request}

-- The bytes of the packets that wait in the FIFOs of an access.
unfoldable pub held : ReturnAccess → List DvbFifo → ℕ
held cr_type [] = 0
held cr_type (f ∷ fs) =
    let rest = held cr_type fs in
    if access_eq f.access_type (return cr_type) then bytes f.queue + rest else rest

pub mac_buffer_length-held :
    (cr_type : ReturnAccess) (fs : List DvbFifo)
    → All Counted fs
    → mac_buffer_length cr_type fs ≡ u32 (8 * held cr_type fs)
unfolding mac_buffer_length held
mac_buffer_length-held cr_type [] h = refl
mac_buffer_length-held cr_type (f ∷ fs) h =
    let ih = mac_buffer_length-held cr_type fs h.1 in
    let counted = h.0.counted in
    let own = current_data_length_lem f in
    elim (Bool-cases (access_eq f.access_type (return cr_type))) [
      | inl e ↦ rw e (omega (arith, ih, counted, own))
      | inr e ↦ rw e ih
    ]

-- With FIFOs whose counters are right and less than 8 megabytes in the volume-based ones,
-- `computeVbdcRequest` returns, and keeps as the agent's credit the request that it returns, whatever
-- was asked for before. The request covers all that waits in these FIFOs, with less than a kbit to
-- spare, up to 4080 kbits; where more waits it is 4080.
pub compute_vbdc_request-covers :
    (a : Agent)
    → All Counted a.dvb_fifos
    → held dama_vbdc a.dvb_fifos < 8000000
    → (request : ℕ) × (compute_vbdc_request a
        ≡ some (request, record a { vbdc_credit_kb = request }))
      × (8 * held dama_vbdc a.dvb_fifos ≤ 4080 * 1000
          → (8 * held dama_vbdc a.dvb_fifos ≤ 1000 * request)
            × (1000 * request < 8 * held dama_vbdc a.dvb_fifos + 1000))
      × (4080 * 1000 < 8 * held dama_vbdc a.dvb_fifos → request ≡ 4080)
unfolding compute_vbdc_request
compute_vbdc_request-covers a h small =
    let len = mac_buffer_length-held dama_vbdc a.dvb_fifos h in
    let fits : mac_buffer_length dama_vbdc a.dvb_fifos ≡ 8 * held dama_vbdc a.dvb_fifos =
      omega (arith, len) in
    let narrow : ltb ((8 * held dama_vbdc a.dvb_fifos + 999) / 1000) 65536 ≡ true = ground arith in
    (
      min ((8 * held dama_vbdc a.dvb_fifos + 999) / 1000) 4080,
      rw (compute_vbdc_request, fits, narrow) refl,
      (λ few. (omega (arith, fits), omega (arith, fits))),
      (λ many. omega (arith, fits)),
    )
