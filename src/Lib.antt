-- ===== src/Lib.antt =====
-- OpenSAND emulates a satellite network: gateways and terminals exchange DVB frames over an
-- emulated satellite. This library models the parts that decide what is sent when: the FIFOs in
-- which packets wait, the demand-assignment (DAMA) protocol by which terminals request capacity and
-- the gateway's controller allocates it, and the slotted Aloha by which terminals share slots
-- without a request.
--
-- A terminal's DAMA agent measures its `DvbFifo`s, keeps histories of rates in a `CircularBuffer`,
-- and sends its requests in a SAC message. The controller, at which terminals log on and off, notes
-- them in the terminal's context and, each superframe, allocates the timeslots of every carrier to
-- the terminals. It sends a TTP message with one plan for each terminal; the agent reads its own
-- plan and fills frames from its FIFOs, as much as it may send until the next one. Between two
-- hosts, a `DelayFifo` holds packets until the tick at which they have arrived.
--
--   Prelude        shared names, Boolean tests, lists and machine words
--   Access         access types: opensand-core/src/dvb/utils/Sac.h, DvbFifo.h
--   Fifo.Element   queue elements: opensand-core/src/common/FifoElement.cpp
--   Fifo.Deque     the bounded deque that specifies a FIFO
--   Fifo.Dvb       DvbFifo: opensand-core/src/dvb/utils/DvbFifo.cpp
--   Fifo.Delay     DelayFifo: opensand-core/src/common/DelayFifo.cpp
--   Saloha.Packet  packets: opensand-core/src/dvb/utils/SlottedAlohaPacketData.cpp
--   Saloha.Backoff backoffs: opensand-core/src/dvb/saloha/SlottedAlohaBackoff*.cpp
--   Saloha.Tal     the terminal: opensand-core/src/dvb/saloha/SlottedAlohaTal.cpp, with its packets and
--                  frames (SlottedAlohaPacketData.cpp, SlottedAlohaFrame.cpp of opensand-core/src/dvb/utils);
--                  Tal.Schedule is schedule, Tal.Timeouts its time-outs, Tal.Acks is onRcvFrame, and
--                  Tal.Header is addSalohaHeader
--   Saloha.Slots   the random slots, getTimeSlots of SlottedAlohaTal.cpp
--   Saloha.Dsa, Saloha.Crdsa
--                  opensand-core/src/dvb/saloha/SlottedAlohaAlgoDsa.cpp and
--                  SlottedAlohaAlgoCrdsa.cpp
--   Lan.Mac        addresses: opensand-core/src/common/MacAddress.cpp
--   Lan.Sarp       the table of addresses: opensand-core/src/common/SarpTable.cpp, and learn of
--                  opensand-core/src/lan_adaptation/PacketSwitch.cpp
--   Lan.Switch     routing in opensand-core/src/lan_adaptation/PacketSwitch.cpp
--   Maps           finite maps, in the order of their keys (std::map)
--   Fmt            the table of formats: opensand-core/src/dvb/fmt/FmtDefinitionTable.cpp
--   Fmt.Group      groups of formats: opensand-core/src/dvb/utils/FmtGroup.cpp, as tokens
--   Dama.Sac       SAC messages: opensand-core/src/dvb/utils/Sac.cpp
--   Dama.Buffer    CircularBuffer: opensand-core/src/dvb/dama/CircularBuffer.cpp
--   Dama.Terminal  terminal contexts: opensand-core/src/dvb/utils/TerminalContextDama.cpp,
--                  TerminalContextDamaRcs.cpp
--   Dama.Ttp       TTP messages: opensand-core/src/dvb/utils/Ttp.cpp, as bytes of a little-endian host
--   Scheduling.Frame
--                  DVB-RCS frames: opensand-core/src/dvb/utils/DvbFrame.h, DvbRcsFrame.cpp
--   Scheduling.Rcs2
--                  the return scheduler: opensand-core/src/dvb/dama/ReturnSchedulingRcs2.cpp
--   Dama.Agent     the terminal's agent: opensand-core/src/dvb/dama/DamaAgent.cpp, DamaAgentRcs2.cpp,
--                  DamaAgentRcs2Legacy.cpp; Agent.Schedule is its returnSchedule
--   Dama.Ctrl      the controller: opensand-core/src/dvb/dama/DamaCtrl.cpp, DamaCtrlRcs2.cpp, with
--                  the terminals of opensand-core/src/dvb/utils/TerminalCategory.h; Ctrl.Plans builds
--                  the TTP, Ctrl.Superframe starts a superframe
--   Dama.Alloc     the allocation of a carrier: opensand-core/src/dvb/dama/DamaCtrlRcs2Legacy.cpp
--
-- Functions keep the names of the methods in snake case (`getTickOut` is `get_tick_out`); a method
-- that changes its object takes the record last and returns it, after the result. Counters are
-- natural numbers with the wrap-around of their C type written out (u16, u32, add16, sub32). Loops
-- are structural recursion on a list; the binary search of `DelayFifo` runs on fuel, the last index
-- of the queue, since each round shortens its range; the loop of the FCA allocation runs on fuel,
-- one round for each terminal and one more; the loop of the return scheduler runs on fuel above six
-- times the FIFOs, the elements and what is to be sent of them, since every round lowers a measure
-- of them.
--
-- A terminal that sends in slotted Aloha draws slots for its packets, keeps them until they are
-- acknowledged, sends them again after a time-out, and waits for a backoff; the random draws are
-- arguments, and the drawing of slots runs on fuel, enough if as many different numbers are drawn
-- as slots are wanted; the gateway resolves the slots of a frame with DSA or CRDSA, whose rounds
-- run on fuel.
--
-- The packet switches learn in a SARP table behind which terminal an Ethernet address is, and route
-- packets by it. Memory that a constructor does not set is an argument of the model.
--
-- Floating-point computations are parameters: the credit of a terminal, the division, comparison
-- and rounding of its fair share, the draw of a backoff, and the conversions between rates, volumes
-- and packets with their FEC. A read through a null pointer and a division by zero are the result
-- none, and so is a conversion that C leaves undefined; the product of a backoff window that
-- overflows is taken to wrap. The plug-in that encapsulates packets into frames is a parameter as
-- well, since GSE and RLE cut packets in external libraries; the conditions on it are those of a
-- plug-in that makes fragments of a packet, as GSE does, and not of RLE, which keeps in its own
-- buffers what it has sent of a packet and hands the packet back whole. The carriers of a category,
-- their wave forms and capacities, and the floating-point steps of a credit are parameters of the
-- superframe. Not modelled: the forward and SCPC schedulers, the sorting of slotted Aloha packets
-- into categories and their reassembly at the gateway, the statistics of agent and controller,
-- locks (a method under its lock is one step), logs and probes, sockets, configuration, physical
-- layer and the external encapsulation libraries.
pub mod Prelude
pub mod Maps
pub mod Access
pub mod Fifo
pub mod Saloha
pub mod Scheduling
pub mod Lan
pub mod Fmt
pub mod Dama
