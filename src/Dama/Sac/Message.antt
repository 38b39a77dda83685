-- ===== src/Dama/Sac/Message.antt =====
-- Which requests a SAC carries.
use opensand.Prelude.{ℕ, ◌+◌, ◌≤◌, ◌≡◌, refl, ◌∙◌, ◌*◌, List, [], ◌∷◌, some, arith, ap}
use opensand.Access.{ReturnAccess}
use opensand.Dama.Sac.{Sac, CrInfo, add_request, new_sac, get_requests}
use opensand.Dama.Sac.Codec.{received}

-- A request that a terminal asks to send.
pub record Wish : Type 0 where
  pub prio : ℕ
  pub access : ReturnAccess
  pub value : ℕ

abbrev pub arrives : Wish → CrInfo
arrives w = received w.prio w.access w.value

-- The message after each request in turn.
unfoldable pub add_all : List Wish → Sac → Sac
unfolding add_request
add_all [] s = s
add_all (w ∷ ws) s = add_all ws (add_request w.prio w.access w.value s).1

-- Two bytes follow the header for each request, and the counters agree with them.
pub record Framed (s : Sac) (infos : List CrInfo) : Type 0 where
  pub requests : get_requests s ≡ some infos
  pub message_length : s.message_length ≡ 12 + 2 * s.cr_number

full-add_request :
    (s : Sac) (w : Wish) → 1 ≤ s.request_nbr → (add_request w.prio w.access w.value s).1 ≡ s
unfolding add_request
full-add_request s w h = ground arith

add_all-full : (ws : List Wish) (s : Sac) → 1 ≤ s.request_nbr → add_all ws s ≡ s
unfolding add_all
add_all-full [] s h = refl
add_all-full (w ∷ ws) s h = ap (add_all ws) (full-add_request s w h) ∙ add_all-full ws s h

pub get_requests-new_sac :
    (lowest tal_id group_id : ℕ) → get_requests (new_sac lowest tal_id group_id) ≡ some []
unfolding new_sac get_requests
get_requests-new_sac lowest tal_id group_id = refl

first-Framed :
    (lowest tal_id group_id : ℕ) (w : Wish)
    → Framed
        (add_request w.prio w.access w.value (new_sac lowest tal_id group_id)).1
        (arrives w ∷ [])
unfolding add_request new_sac get_requests received
first-Framed lowest tal_id group_id w = record { requests = refl; message_length = refl }

-- Of the requests added to a new SAC the first alone is carried, in its coded form; each later one is
-- refused and changes nothing, although the declared maximum is two.
pub add_all-first_only :
    (lowest tal_id group_id : ℕ) (w : Wish) (ws : List Wish)
    → Framed (add_all (w ∷ ws) (new_sac lowest tal_id group_id)) (arrives w ∷ [])
      × (add_all (w ∷ ws) (new_sac lowest tal_id group_id)
          ≡ add_all (w ∷ []) (new_sac lowest tal_id group_id))
unfolding add_all
add_all-first_only lowest tal_id group_id w ws =
    let s = (add_request w.prio w.access w.value (new_sac lowest tal_id group_id)).1 in
    let same : add_all ws s ≡ s = add_all-full ws s (unfold add_request new_sac in omega arith) in
    (rw same (first-Framed lowest tal_id group_id w), same)
