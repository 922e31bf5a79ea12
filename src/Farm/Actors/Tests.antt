-- ===== src/Farm/Actors/Tests.antt =====
-- A sidecar and a codec, and the theorem at a call through them.
use pipsim.Common.{ℕ, zero, suc, ◌≡◌, refl, Bool, true, false, Option, none, some, [], ◌∷◌, arith}
use pipsim.Common.Tests.{ℕ-Eq}
use pipsim.Common.Strings.{Bytes, Bytes-Eq}
use pipsim.Common.Assoc.{lookup}
use pipsim.Workplace.{unspecified}
use pipsim.Farm.Shifts.{ShiftSet}
use pipsim.Farm.Store.{mem_store}
use pipsim.Farm.Host.{Host}
use pipsim.Farm.Actors.{
  Request, Response, Codec, HttpResponse, start_shift, ended, serve_actor, host_handle,
}
use pipsim.Farm.Actors.Callers.{actor_handle}
use pipsim.Farm.Actors.Equals.{IsCodec, sent, IsHost, Routes, actor_handle-eq}

-- Bodies that are the messages themselves.
data Body : Type 0 where
  nothing : Body
  request : Request → Body
  response : Response → Body

abbrev is_nothing : Body → Bool
is_nothing nothing = true
is_nothing _ = false

abbrev as_request : Body → Option Request
as_request (request r) = some r
as_request _ = none

abbrev as_response : Body → Option Response
as_response (response r) = some r
as_response _ = none

abbrev messages : Codec Body
messages = record {
  blank = nothing;
  is_blank = is_nothing;
  marshal_request = λ m r. some (request (sent m r));
  unmarshal_request = λ m body. as_request body;
  marshal_response = λ m r. some (response r);
  unmarshal_response = λ m body. as_response body;
  empty_response = λ m. ended;
}

messages-IsCodec : IsCodec messages
messages-IsCodec = record {
  request_text = λ m r. request (sent m r);
  writes_request = λ m r. refl;
  request_full = λ m r. refl;
  reads_request = λ m r. refl;
  response_text = λ m r. response r;
  writes_response = λ m r h. refl;
  response_full = λ m r. refl;
  reads_response = λ m r h. refl;
}

-- The sidecar cuts its own prefix off.
abbrev cut : ℕ → Bytes → Bytes
cut zero s = s
cut (suc n) [] = []
cut (suc n) (c ∷ s) = cut n s

abbrev deliver : Bytes → ℕ → Body → Host ShiftSet → Host ShiftSet × Option (HttpResponse Body)
deliver path now body h =
    let (h', answer) = serve_actor mem_store messages false (cut 5 path) now body h in
    (h', some answer)

deliver-Routes : Routes mem_store messages messages-IsCodec deliver
deliver-Routes id m now body h = refl

abbrev one_farm : Host ShiftSet
one_farm = record {
  buildings =
      (3, record { store = record { shifts = []; max = 2; lease = 15; max_gap = 40 }; id = 3 })
      ∷ [];
  next = 0;
}

one_farm-IsHost : IsHost one_farm
unfolding lookup
one_farm-IsHost id b e = (ground arith, ground arith, ground arith)

abbrev hire : Request
hire = record { workplace_id = 0; pip_id = 7; tick = 120; resource_kind = unspecified }

actor_handle-eq_example :
    actor_handle messages deliver start_shift 9 hire one_farm
    ≡ host_handle mem_store start_shift 9 hire one_farm
actor_handle-eq_example =
    actor_handle-eq mem_store messages messages-IsCodec deliver deliver-Routes start_shift 9 hire
      one_farm one_farm-IsHost
