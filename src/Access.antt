-- ===== src/Access.antt =====
-- The access types of carriers and FIFOs: opensand-core/src/dvb/utils/Sac.h (`ReturnAccessType`) and
-- opensand-core/src/dvb/utils/DvbFifo.h (`ForwardAccessType`, `ForwardOrReturnAccessType`).
use opensand.Prelude.{Bool, true, false}

pub data ReturnAccess : Type 0 where
  dama_vbdc dama_rbdc dama_avbdc dama_cra saloha : ReturnAccess

pub data ForwardAccess : Type 0 where
  acm vcm : ForwardAccess

-- The tagged union: the direction is the constructor, the union's member its argument.
pub data FifoAccess : Type 0 where
  unknown : FifoAccess
  forward : ForwardAccess → FifoAccess
  return : ReturnAccess → FifoAccess

unfoldable pub return_eq : ReturnAccess → ReturnAccess → Bool
return_eq dama_vbdc dama_vbdc = true
return_eq dama_rbdc dama_rbdc = true
return_eq dama_avbdc dama_avbdc = true
return_eq dama_cra dama_cra = true
return_eq saloha saloha = true
return_eq _ _ = false

unfoldable pub forward_eq : ForwardAccess → ForwardAccess → Bool
forward_eq acm acm = true
forward_eq vcm vcm = true
forward_eq _ _ = false

-- `operator ==`. Two unknown accesses are not equal.
unfoldable pub access_eq : FifoAccess → FifoAccess → Bool
unfolding return_eq forward_eq
access_eq (forward a) (forward b) = forward_eq a b
access_eq (return a) (return b) = return_eq a b
access_eq _ _ = false
