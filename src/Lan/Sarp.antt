-- ===== src/Lan/Sarp.antt =====
-- opensand-core/src/common/SarpTable.cpp, and how `PacketSwitch::learn`
-- (opensand-core/src/lan_adaptation/PacketSwitch.cpp) fills it.
pub mod Learning
mod Tests
use opensand.Prelude.{
  ℕ, Bool, true, false, Option, none, some, List, [], ◌∷◌, ◌++◌, leb, ◌==◌, if◌then◌else◌, length,
}
use opensand.Lan.Mac.{MacAddress, matches, str, of_string}

pub record Entry : Type 0 where
  pub mac : MacAddress
  pub tal_id : ℕ

pub record SarpTable : Type 0 where
  pub max_entries : ℕ
  pub eth_sarp : List Entry
  pub default_dest : ℕ

-- The constructor, in a memory: `default_dest` is not set.
unfoldable pub new_sarp : ℕ → ℕ → SarpTable
new_sarp memory max_entries = record {
  max_entries = if max_entries == 0 then 50 else max_entries;
  eth_sarp = [];
  default_dest = memory;
}

-- The loops of the two searches: the first entry that fits.
unfoldable pub find_mac : MacAddress → List Entry → Option ℕ
find_mac mac [] = none
find_mac mac (e ∷ es) = if matches e.mac mac then some e.tal_id else find_mac mac es

unfoldable pub find_tal : ℕ → List Entry → Option MacAddress
find_tal tal_id [] = none
find_tal tal_id (e ∷ es) = if e.tal_id == tal_id then some e.mac else find_tal tal_id es

-- The result, and what `tal_id` is set to.
unfoldable pub get_tal_by_mac : MacAddress → SarpTable → Bool × ℕ
unfolding find_mac
get_tal_by_mac mac t = elim (find_mac mac t.eth_sarp) [
  | none ↦ (false, t.default_dest)
  | some tal_id ↦ (true, tal_id)
]

-- The addresses are appended to the caller's vector; a new one is read from its text, in a memory.
unfoldable pub get_mac_by_tal :
    MacAddress → ℕ → SarpTable → List MacAddress → Bool × List MacAddress
unfolding find_tal
get_mac_by_tal memory tal_id t macs = elim (find_tal tal_id t.eth_sarp) [
  | none ↦ (false, macs)
  | some mac ↦ (true, macs ++ of_string memory (str mac) ∷ [])
]

unfoldable pub set_default_tal : ℕ → SarpTable → SarpTable
set_default_tal dflt t = record t { default_dest = dflt }

-- `add`, of an address that is not null.
unfoldable pub add : MacAddress → ℕ → SarpTable → Bool × SarpTable
unfolding get_tal_by_mac
add mac tal t =
    let known = (get_tal_by_mac mac t).0 in
    if leb t.max_entries (length t.eth_sarp)
    then (false, t)
    else if known
    then (true, t)
    else (true, record t { eth_sarp = t.eth_sarp ++ record { mac = mac; tal_id = tal } ∷ [] })

-- `PacketSwitch::learn`, for the source address of a packet: it is printed and read back, in a memory.
unfoldable pub learn : MacAddress → MacAddress → ℕ → SarpTable → Bool × SarpTable
unfolding add
learn memory src_mac src_id t = add (of_string memory (str src_mac)) src_id t
