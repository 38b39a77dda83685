-- ===== src/Dama/Agent/Schedule.antt =====
-- `DamaAgentRcs2::returnSchedule`: the agent sends what it may of its FIFOs.
use opensand.Prelude.{
  ℕ, ◌+◌, ◌*◌, ◌≤◌, ◌<◌, ◌≡◌, refl, Bool, true, false, Option, none, some, List, ◌++◌, map, All,
}
use opensand.Scheduling.Frame.{Packet, DvbRcsFrame, set_modcod_id}
use opensand.Scheduling.Rcs2.{Handler, Sched, schedule}
use opensand.Scheduling.Rcs2.Ends.{Shrinking, work}
use opensand.Scheduling.Rcs2.Limits.{Filling, room}
use opensand.Scheduling.Rcs2.Order.{Faithful, Fits}
use opensand.Scheduling.Rcs2.Delivery.{Delivered, schedule-Delivered}
use opensand.Dama.Agent.{Agent}

-- Every burst gets the modulation of the agent.
abbrev with_modcod : Agent → List DvbRcsFrame → List DvbRcsFrame
with_modcod a frames = map (set_modcod_id a.modcod_id) frames

module _ (H : Handler) where
  -- Once the scheduler has returned. The FIFOs are those that it changed; the allocation is taken over
  -- on success alone.
  unfoldable pub scheduled :
      Bool × Option (Sched H) → Agent → List DvbRcsFrame → Bool × Agent × List DvbRcsFrame
  scheduled (true, none) a frames = (true, a, with_modcod a frames)
  scheduled (true, some s) a frames = (
    true,
    record a { dvb_fifos = s.before ++ s.fifos; remaining_allocation_b = s.remaining_allocation_b },
    with_modcod a s.complete_dvb_frames,
  )
  scheduled (false, none) a frames = (false, a, frames)
  scheduled (false, some s) a frames =
      (false, record a { dvb_fifos = s.before ++ s.fifos }, s.complete_dvb_frames)

  unfoldable pub return_schedule :
      ℕ → List DvbRcsFrame → H.Context → Agent → Option (Bool × Agent × List DvbRcsFrame)
  unfolding scheduled schedule
  return_schedule fuel frames context a =
      elim (schedule H a.burst_length_b fuel a.dvb_fifos frames a.remaining_allocation_b context) [
        | none ↦ none
        | some result ↦ some (scheduled result a frames)
      ]

  -- Under the conditions of the scheduler, the agent succeeds: it keeps the FIFOs and the allocation that
  -- the scheduler leaves, and all frames have its modulation.
  return_schedule-Delivered :
      (content packed_content : Packet → List ℕ) (fuel : ℕ) (frames : List DvbRcsFrame)
      (context : H.Context) (a : Agent) (S : Shrinking H) (F : Filling H)
      → Faithful content packed_content H
      → 8 ≤ a.burst_length_b
      → F.least ≤ room a.burst_length_b
      → a.burst_length_b < 4294967296
      → a.remaining_allocation_b < 2147483648
      → All (Fits content packed_content) a.dvb_fifos
      → 6 * work S.left a.dvb_fifos + 4 < fuel
      → (s : Sched H) × (return_schedule fuel frames context a
          ≡ some (
            true,
            record a {
              dvb_fifos = s.before ++ s.fifos;
              remaining_allocation_b = s.remaining_allocation_b;
            },
            map (set_modcod_id a.modcod_id) s.complete_dvb_frames,
          ))
        × Delivered content packed_content H a.burst_length_b a.remaining_allocation_b frames
            a.dvb_fifos s
  unfolding return_schedule
  return_schedule-Delivered content packed_content fuel frames context a S F W large roomy small few
        fits enough =
      let (s, ran, delivered) =
        schedule-Delivered content packed_content H a.burst_length_b a.remaining_allocation_b frames
          a.dvb_fifos fuel context S F W large roomy small few fits enough in
      (s, rw (return_schedule, ran) refl, delivered)
