-- ===== src/Farm/Actors/Callers.antt =====
-- The caller's half of a farm of actors: `ActorHost` of
-- services/workplaces/farm/internal/farm/dapr.go.
use pipsim.Common.{ℕ, ◌+◌, Bool, true, false, Option, none, some, List, [], ◌∷◌, if◌then◌else◌}
use pipsim.Common.Tests.{ℕ-Eq}
use pipsim.Common.Strings.{Bytes, Bytes-Eq, bytes}
use pipsim.Connect.{Reply, ok, err}
use pipsim.Workplace.{unspecified}
use pipsim.Farm.Service.{Service}
use pipsim.Farm.Host.{Host, resolve, ids}
use pipsim.Farm.Actors.{
  Method, describe, start_shift, Request, empty_request, Response, started, described, method_name,
  Codec, HttpResponse, sidecar_path, read_answer, or_unavailable,
}

-- The caller's half. The sidecar takes a path and a body; `none` is a request that failed.
module _ {S Body : Type 0} (codec : Codec Body)
    (deliver : Bytes → ℕ → Body → Host S → Host S × Option (HttpResponse Body)) where
  unfoldable pub send : ℕ → Method → ℕ → Option Body → Host S → Host S × Option Response
  unfolding read_answer
  send id m now none h = (h, none)
  send id m now (some body) h =
      let (h', answer) = deliver (sidecar_path id (method_name m)) now body h in
      (h', read_answer codec m answer)

  -- `call`; `none` is an error.
  unfoldable pub call : ℕ → Method → ℕ → Request → Host S → Host S × Option Response
  unfolding send
  call id m now r h = send id m now (codec.marshal_request m r) h

  unfoldable pub forward_to :
      Reply (Service S) → Method → ℕ → Request → Host S → Host S × Reply Response
  unfolding call
  forward_to (err c) m now r h = (h, err c)
  forward_to (ok b) m now r h =
      or_unavailable (call b.id m now (record r { workplace_id = b.id }) h)

  -- The handlers of `ActorHost`.
  unfoldable pub actor_handle : Method → ℕ → Request → Host S → Host S × Reply Response
  unfolding forward_to
  actor_handle m now r h = forward_to (resolve r.workplace_id h) m now r h

  -- `List`: the answers in the order of the ids, or the first error.
  unfoldable pub list_each : ℕ → List ℕ → Host S → Host S × Reply (List Response)
  unfolding actor_handle
  list_each now [] h = (h, ok [])
  list_each now (id ∷ rest) h =
      let (h', reply) = actor_handle describe now (record empty_request { workplace_id = id }) h in
      let (h'', others) = list_each now rest h' in
      elim reply [
        | err c ↦ (h', err c)
        | ok r ↦ elim others [ err c ↦ (h'', err c) | ok rs ↦ (h'', ok (r ∷ rs)) ]
      ]

  unfoldable pub list : ℕ → Host S → Host S × Reply (List Response)
  unfolding list_each ids
  list now h = list_each now (ids h) h

  -- `ConsiderOffer` over the ids that are left: the first building that takes the pip. A call that
  -- fails, or whose answer is no StartShiftResponse, is passed over.
  abbrev pub is_taken : Option Response → Bool
  is_taken (some (started v)) = v.accepted
  is_taken _ = false

  unfoldable pub consider_each : ℕ → ℕ → ℕ → List ℕ → Host S → Host S × Bool × Bytes × ℕ
  unfolding call
  consider_each pip tick now [] h = (h, false, bytes "no free positions", 0)
  consider_each pip tick now (id ∷ rest) h =
      let (h', response) =
        call id start_shift now
          (record { workplace_id = id; pip_id = pip; tick = tick; resource_kind = unspecified })
          h in
      let next = consider_each pip tick now rest h' in
      if is_taken response then (h', true, bytes "", id) else next

  unfoldable pub consider_offer : ℕ → ℕ → ℕ → Host S → Host S × Bool × Bytes × ℕ
  unfolding consider_each ids
  consider_offer pip tick now h = consider_each pip tick now (ids h) h

  abbrev pub workers_in : Option Response → ℕ
  workers_in (some (described d)) = d.current_workers
  workers_in _ = 0

  unfoldable pub workers_each : ℕ → List ℕ → Host S → ℕ
  unfolding call
  workers_each now [] h = 0
  workers_each now (id ∷ rest) h =
      let (h', response) =
        call id describe now
          (record { workplace_id = id; pip_id = 0; tick = 0; resource_kind = unspecified }) h in
      workers_in response + workers_each now rest h'

  unfoldable pub workers : ℕ → Host S → ℕ
  unfolding workers_each ids
  workers now h = workers_each now (ids h) h
