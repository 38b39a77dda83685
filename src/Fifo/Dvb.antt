-- ===== src/Fifo/Dvb.antt =====
-- opensand-core/src/dvb/utils/DvbFifo.cpp: the MAC FIFO with its counters and statistics. Packet
-- counters are 16-bit words and byte counters 32-bit words. The mutex is held for the whole of each
-- operation, so an operation is one step. Logging is left out.
pub mod Inv
pub mod Refine
pub mod Flow
mod Tests
use Prim.Native.String.{String}
use text.Mathlib.Text.{◌==◌ as str_eq, starts_with}
use opensand.Prelude.{
  ℕ, ◌+◌, ◌≡◌, refl, Bool, true, false, Option, none, some, List, [], ◌∷◌, ◌++◌, ltb, length,
  if◌then◌else◌, u16, u32, add16, add32, sub32,
}
use opensand.Access.{
  FifoAccess, unknown, forward, return, acm, vcm, dama_vbdc, dama_rbdc, dama_cra, saloha, access_eq,
}
use opensand.Fifo.Element.{Element}
use opensand.Fifo.Deque
use opensand.Fifo.Deque.{Reply, done, pushed, popped, value}

-- `mac_fifo_stat_context_t`
pub record Stats : Type 0 where
  pub current_pkt_nbr : ℕ
  pub current_length_bytes : ℕ
  pub in_pkt_nbr : ℕ
  pub out_pkt_nbr : ℕ
  pub in_length_bytes : ℕ
  pub out_length_bytes : ℕ
  pub drop_pkt_nbr : ℕ
  pub drop_bytes : ℕ

abbrev pub no_stats : Stats
no_stats = record {
  current_pkt_nbr = 0;
  current_length_bytes = 0;
  in_pkt_nbr = 0;
  out_pkt_nbr = 0;
  in_length_bytes = 0;
  out_length_bytes = 0;
  drop_pkt_nbr = 0;
  drop_bytes = 0;
}

pub record DvbFifo : Type 0 where
  pub queue : List Element
  pub fifo_priority : ℕ
  pub access_type : FifoAccess
  pub vcm_id : ℕ
  pub new_size_pkt : ℕ
  pub cur_length_bytes : ℕ
  pub new_length_bytes : ℕ
  pub max_size_pkt : ℕ
  pub carrier_id : ℕ
  pub stats : Stats
  pub cni : ℕ

-- The access type that the constructor reads from the configured name.
pub access_of_name : String → FifoAccess
access_of_name name =
    if str_eq name "DAMA_RBDC"
    then return dama_rbdc
    else if str_eq name "DAMA_VBDC"
    then return dama_vbdc
    else if str_eq name "SALOHA"
    then return saloha
    else if str_eq name "DAMA_CRA"
    then return dama_cra
    else if str_eq name "ACM"
    then forward acm
    else if starts_with name "VCM"
    then forward vcm
    else unknown

-- The terminal's constructor. `scan` is what `sscanf("VCM%d")` leaves in `vcm_id`, from its value 0.
pub new_terminal_fifo : (String → ℕ) → ℕ → String → ℕ → DvbFifo
unfolding access_of_name
new_terminal_fifo scan priority type_name max_size_pkt = record {
  queue = [];
  fifo_priority = priority;
  access_type = access_of_name type_name;
  vcm_id = if access_eq (access_of_name type_name) (forward vcm) then scan type_name else 0;
  new_size_pkt = 0;
  cur_length_bytes = 0;
  new_length_bytes = 0;
  max_size_pkt = max_size_pkt;
  carrier_id = 0;
  stats = no_stats;
  cni = 0;
}

-- The satellite's and gateway's constructor. It leaves `vcm_id` and `cni` as the memory holds them.
pub new_carrier_fifo : ℕ → ℕ → ℕ → ℕ → DvbFifo
new_carrier_fifo vcm_memory cni_memory carrier_id max_size_pkt = record {
  queue = [];
  fifo_priority = 0;
  access_type = unknown;
  vcm_id = vcm_memory;
  new_size_pkt = 0;
  cur_length_bytes = 0;
  new_length_bytes = 0;
  max_size_pkt = max_size_pkt;
  carrier_id = carrier_id;
  stats = no_stats;
  cni = cni_memory;
}

pub reset_new : FifoAccess → DvbFifo → DvbFifo
reset_new cr_type f =
    if access_eq f.access_type cr_type
    then record f { new_size_pkt = 0; new_length_bytes = 0 }
    else f

unfoldable pub current_size : DvbFifo → ℕ
current_size f = u16 (length f.queue)

unfoldable pub current_data_length : DvbFifo → ℕ
current_data_length f = f.cur_length_bytes

pub current_data_length_lem : (f : DvbFifo) → current_data_length f ≡ f.cur_length_bytes
unfolding current_data_length
current_data_length_lem f = refl

front_tick : List Element → ℕ
front_tick [] = 0
front_tick (e ∷ es) = e.tick_out

pub get_tick_out : DvbFifo → ℕ
unfolding front_tick
get_tick_out f = front_tick f.queue

pub set_cni : ℕ → DvbFifo → DvbFifo
set_cni cni f = record f { cni = cni }

-- `this->queue.size() < this->max_size_pkt`
abbrev pub has_room : DvbFifo → Bool
has_room f = ltb (length f.queue) f.max_size_pkt

count_drop : ℕ → Stats → Stats
count_drop len s = record s {
  drop_pkt_nbr = add16 s.drop_pkt_nbr 1;
  drop_bytes = add32 s.drop_bytes len;
}

count_in : ℕ → ℕ → Stats → Stats
count_in queue_size len s = record s {
  current_pkt_nbr = u16 queue_size;
  in_pkt_nbr = add16 s.in_pkt_nbr 1;
  current_length_bytes = add32 s.current_length_bytes len;
  in_length_bytes = add32 s.in_length_bytes len;
}

pub push : Element → DvbFifo → Bool × DvbFifo
unfolding count_drop count_in
push e f =
    let len = u32 e.total_length in
    if has_room f
    then (
      true,
      record f {
        queue = f.queue ++ e ∷ [];
        new_size_pkt = add16 f.new_size_pkt 1;
        stats = count_in (length (f.queue ++ e ∷ [])) len f.stats;
        new_length_bytes = add32 f.new_length_bytes len;
        cur_length_bytes = add32 f.cur_length_bytes len;
      },
    )
    else (false, record f { stats = count_drop len f.stats })

-- A fragment that goes back leaves the output counter.
unfoldable pub count_back : ℕ → ℕ → Stats → Stats
count_back queue_size len s = record s {
  current_pkt_nbr = u16 queue_size;
  current_length_bytes = add32 s.current_length_bytes len;
  out_length_bytes = sub32 s.out_length_bytes len;
}

unfoldable pub put_back : ℕ → List Element → DvbFifo → DvbFifo
unfolding count_back
put_back len queue f = record f {
  queue = queue;
  cur_length_bytes = add32 f.cur_length_bytes len;
  stats = count_back (length queue) len f.stats;
}

unfoldable pub push_front : Element → DvbFifo → Bool × DvbFifo
unfolding put_back
push_front e f =
    if has_room f then (true, put_back (u32 e.total_length) (e ∷ f.queue) f) else (false, f)

pub push_back : Element → DvbFifo → Bool × DvbFifo
unfolding put_back
push_back e f =
    if has_room f then (true, put_back (u32 e.total_length) (f.queue ++ e ∷ []) f) else (false, f)

unfoldable pub count_out : ℕ → ℕ → Stats → Stats
count_out queue_size len s = record s {
  current_pkt_nbr = u16 queue_size;
  out_pkt_nbr = add16 s.out_pkt_nbr 1;
  current_length_bytes = sub32 s.current_length_bytes len;
  out_length_bytes = add32 s.out_length_bytes len;
}

unfoldable pub pop_from : List Element → DvbFifo → Option Element × DvbFifo
unfolding count_out
pop_from [] f = (none, f)
pop_from (e ∷ es) f = (
  some e,
  record f {
    queue = es;
    cur_length_bytes = sub32 f.cur_length_bytes (u32 e.total_length);
    stats = count_out (length es) (u32 e.total_length) f.stats;
  },
)

unfoldable pub pop : DvbFifo → Option Element × DvbFifo
unfolding pop_from
pop f = pop_from f.queue f

reset_stats : Stats → Stats
reset_stats s = record s {
  in_pkt_nbr = 0;
  out_pkt_nbr = 0;
  in_length_bytes = 0;
  out_length_bytes = 0;
  drop_pkt_nbr = 0;
  drop_bytes = 0;
}

pub flush : DvbFifo → DvbFifo
unfolding reset_stats
flush f = record f {
  queue = [];
  new_size_pkt = 0;
  new_length_bytes = 0;
  cur_length_bytes = 0;
  stats = reset_stats f.stats;
}

pub get_stats : DvbFifo → Stats × DvbFifo
unfolding reset_stats
get_stats f = (f.stats, record f { stats = reset_stats f.stats })

-- A client's calls.
pub data Call : Type 0 where
  pushes pushes_front pushes_back : Element → Call
  pops sizes lengths ticks flushes : Call
  resets_new : FifoAccess → Call
  sets_cni : ℕ → Call
  gets_stats : Call

pub call : DvbFifo → Call → Reply × DvbFifo
unfolding push push_front push_back pop flush get_stats reset_new set_cni current_size
    current_data_length get_tick_out
call f (pushes e) = let (b, g) = push e f in (pushed b, g)
call f (pushes_front e) = let (b, g) = push_front e f in (pushed b, g)
call f (pushes_back e) = let (b, g) = push_back e f in (pushed b, g)
call f pops = let (o, g) = pop f in (popped o, g)
call f sizes = (value (current_size f), f)
call f lengths = (value (current_data_length f), f)
call f ticks = (value (get_tick_out f), f)
call f flushes = (done, flush f)
call f (resets_new cr_type) = (done, reset_new cr_type f)
call f (sets_cni cni) = (done, set_cni cni f)
call f gets_stats = (done, (get_stats f).1)

pub run : DvbFifo → List Call → List Reply × DvbFifo
run f [] = ([], f)
run f (c ∷ cs) = let (r, g) = call f c in let (rs, h) = run g cs in (r ∷ rs, h)
