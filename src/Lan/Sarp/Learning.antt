-- ===== src/Lan/Sarp/Learning.antt =====
-- What the table answers after addresses were learned.
use opensand.Prelude.{
  ℕ, ◌≤◌, ◌<◌, ◌≡◌, refl, ap, sym, ◌∙◌, Bool, true, false, none, some, List, [], ◌∷◌, ◌++◌, leb,
  if◌then◌else◌, length, length-append, arith, Bool-cases, inl, inr, ==_refl,
}
use opensand.Lan.Mac.{MacAddress, exact_byte, matches, str, of_string}
use opensand.Lan.Mac.Text.{Bytes, plain, of_string-str}
use opensand.Lan.Sarp.{Entry, SarpTable, find_mac, get_tal_by_mac, add, learn}

matches_refl : (mac : MacAddress) → matches mac mac ≡ true
unfolding matches
matches_refl [] = refl
matches_refl (b ∷ bs) = elim (Bool-cases b.generic) [
  | inl g ↦ rw g (matches_refl bs)
  | inr g ↦ rw (g, ==_refl b.value) (matches_refl bs)
]

-- An address whose bytes are all exact is its own plain form.
abbrev pub Exact : MacAddress → Type 0
Exact [] = Unit {0}
Exact (b ∷ bs) = (b ≡ exact_byte b.value) × Exact bs

plain-Exact : (mac : MacAddress) → Exact mac → plain mac ≡ mac
unfolding plain
plain-Exact [] h = refl
plain-Exact (b ∷ bs) h =
    ap (◌∷◌ (exact_byte b.value)) (plain-Exact bs h.1) ∙ ap (λ x. x ∷ bs) (sym h.0)

find_mac-append :
    (mac : MacAddress) (es : List Entry) (e : Entry) (id : ℕ)
    → find_mac mac es ≡ some id
    → find_mac mac (es ++ e ∷ []) ≡ some id
unfolding find_mac
find_mac-append mac [] e id h = cc
find_mac-append mac (x ∷ es) e id h = ground (arith, find_mac-append mac es e id)

find_mac-new :
    (mac : MacAddress) (es : List Entry) (e : Entry)
    → find_mac mac es ≡ none
    → matches e.mac mac ≡ true
    → find_mac mac (es ++ e ∷ []) ≡ some e.tal_id
unfolding find_mac
find_mac-new mac [] e h m = rw m refl
find_mac-new mac (x ∷ es) e h m = ground (arith, find_mac-new mac es e)

answer-found :
    (mac : MacAddress) (t : SarpTable) (id : ℕ)
    → find_mac mac t.eth_sarp ≡ some id
    → get_tal_by_mac mac t ≡ (true, id)
unfolding get_tal_by_mac
answer-found mac t id h = rw (get_tal_by_mac, h) refl

answer-known :
    (mac : MacAddress) (t : SarpTable)
    → find_mac mac t.eth_sarp ≡ none
    → (get_tal_by_mac mac t).0 ≡ false
unfolding get_tal_by_mac
answer-known mac t h = rw (get_tal_by_mac, h) refl

-- Addresses that are learned in turn, each from a memory, with the terminal that they came from.
pub record Heard : Type 0 where
  pub memory : MacAddress
  pub mac : MacAddress
  pub tal_id : ℕ

unfoldable pub learn_all : List Heard → SarpTable → SarpTable
unfolding learn
learn_all [] t = t
learn_all (h ∷ hs) t = learn_all hs (learn h.memory h.mac h.tal_id t).1

find_mac-add :
    (mac src : MacAddress) (tal id : ℕ) (t : SarpTable)
    → find_mac mac t.eth_sarp ≡ some id
    → find_mac mac (add src tal t).1.eth_sarp ≡ some id
unfolding add
find_mac-add mac src tal id t h =
    ground (arith, find_mac-append mac t.eth_sarp (record { mac = src; tal_id = tal }) id)

find_mac-learn_all :
    (hs : List Heard) (mac : MacAddress) (id : ℕ) (t : SarpTable)
    → find_mac mac t.eth_sarp ≡ some id
    → find_mac mac (learn_all hs t).eth_sarp ≡ some id
unfolding learn_all learn
find_mac-learn_all [] mac id t h = h
find_mac-learn_all (x ∷ hs) mac id t h =
    find_mac-learn_all hs mac id _
      (find_mac-add mac (of_string x.memory (str x.mac)) x.tal_id id t h)

add-new :
    (src : MacAddress) (tal : ℕ) (t : SarpTable)
    → length t.eth_sarp < t.max_entries
    → find_mac src t.eth_sarp ≡ none
    → find_mac src (add src tal t).1.eth_sarp ≡ some tal
unfolding add
add-new src tal t r h =
    let room : leb t.max_entries (length t.eth_sarp) ≡ false = ground arith in
    rw (room, answer-known src t h)
      (find_mac-new src t.eth_sarp (record { mac = src; tal_id = tal }) h (matches_refl src))

-- An address without generic bytes that is heard for the first time while there is room is found
-- behind its terminal from then on, whatever is learned later: no later packet moves it.
pub learn_all-found :
    (memory src : MacAddress) (tal : ℕ) (t : SarpTable) (hs : List Heard)
    → Exact src
    → Bytes src
    → length memory ≡ length src
    → length t.eth_sarp < t.max_entries
    → find_mac src t.eth_sarp ≡ none
    → get_tal_by_mac src (learn_all hs (learn memory src tal t).1) ≡ (true, tal)
unfolding learn
learn_all-found memory src tal t hs x v l r h =
    let same : of_string memory (str src) ≡ src =
      of_string-str src memory v l ∙ plain-Exact src x in
    answer-found src (learn_all hs (learn memory src tal t).1) tal (
      find_mac-learn_all hs src tal (learn memory src tal t).1
        (ap (λ m. find_mac src (add m tal t).1.eth_sarp) same ∙ add-new src tal t r h))

learn-full :
    (memory mac : MacAddress) (tal : ℕ) (t : SarpTable)
    → length t.eth_sarp ≡ t.max_entries
    → learn memory mac tal t ≡ (false, t)
unfolding learn add
learn-full memory mac tal t e =
    let full : leb t.max_entries (length t.eth_sarp) ≡ true = ground arith in
    ap
      (λ b.
        if b
        then (false, t)
        else if known
        then (true, t)
        else (true, record t { eth_sarp = t.eth_sarp ++ record { mac = src; tal_id = tal } ∷ [] }))
      full
  where
    src : MacAddress
    src = of_string memory (str mac)

    known : Bool
    known = (get_tal_by_mac src t).0

learn_all-full :
    (hs : List Heard) (t : SarpTable) → length t.eth_sarp ≡ t.max_entries → learn_all hs t ≡ t
unfolding learn_all
learn_all-full [] t e = refl
learn_all-full (h ∷ hs) t e =
    ap (λ r. learn_all hs r.1) (learn-full h.memory h.mac h.tal_id t e) ∙ learn_all-full hs t e

length-learn :
    (memory mac : MacAddress) (tal : ℕ) (t : SarpTable)
    → length t.eth_sarp ≤ t.max_entries
    → (length (learn memory mac tal t).1.eth_sarp ≤ (learn memory mac tal t).1.max_entries)
      × ((learn memory mac tal t).1.max_entries ≡ t.max_entries)
unfolding learn add
length-learn memory mac tal t h = ground (
  arith,
  length-append t.eth_sarp (record { mac = of_string memory (str mac); tal_id = tal } ∷ []),
)

length-learn_all :
    (hs : List Heard) (t : SarpTable)
    → length t.eth_sarp ≤ t.max_entries
    → length (learn_all hs t).eth_sarp ≤ t.max_entries
unfolding learn_all
length-learn_all [] t h = h
length-learn_all (x ∷ hs) t h =
    let (l, m) = length-learn x.memory x.mac x.tal_id t h in
    omega (arith, length-learn_all hs (learn x.memory x.mac x.tal_id t).1 l)

-- The number of entries never exceeds the maximum. Once the table is full nothing changes it, and every
-- address is refused, one that is known included.
pub learn_all-bounded :
    (hs : List Heard) (t : SarpTable)
    → length t.eth_sarp ≤ t.max_entries
    → (length (learn_all hs t).eth_sarp ≤ t.max_entries)
      × (length t.eth_sarp ≡ t.max_entries
          → (learn_all hs t ≡ t)
            × ((memory mac : MacAddress) (tal : ℕ) → learn memory mac tal t ≡ (false, t)))
learn_all-bounded hs t h = (
  length-learn_all hs t h,
  λ e. (learn_all-full hs t e, λ memory mac tal. learn-full memory mac tal t e),
)
