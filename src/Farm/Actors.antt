-- ===== src/Farm/Actors.antt =====
-- A farm whose buildings are Dapr actors: `ActorHost`, `serveActor` and `dispatch` of
-- services/workplaces/farm/internal/farm/dapr.go. The sidecar and protojson are parameters. The
-- six handlers of a host are the same but for the message, so a request is one of six messages
-- here, and a response one of six.
pub mod Callers
pub mod Paths
pub mod Equals
mod Tests
use pipsim.Common.{
  ℕ, ◌+◌, Bool, true, false, not, ◌||◌, Option, none, some, List, [], ◌∷◌, ◌++◌, ltb, leb, nat_eq,
  length, if◌then◌else◌,
}
use pipsim.Common.Tests.{◌==◌, ℕ-Eq}
use pipsim.Common.Strings.{Bytes, Bytes-Eq, bytes, decimal}
use pipsim.Common.Text.{split, trim, trim_space, parse_uint}
use pipsim.Common.Assoc.{Assoc, lookup, insert}
use pipsim.Connect.{Reply, ok, err, unavailable}
use pipsim.Workplace.{ResourceKind, unspecified, Description, WorkResponse, BuyResponse, Verdict}
use pipsim.Farm.Store.{StoreCalls}
use pipsim.Farm.Service
use pipsim.Farm.Service.{Service}
use pipsim.Farm.Host.{Host, resolve, forward, ids}

pub data Method : Type 0 where
  describe can_employ start_shift work end_shift buy : Method

-- A request of the workplace contract: the building, and what else the farm reads of it.
pub record Request : Type 0 where
  pub workplace_id : ℕ
  pub pip_id : ℕ
  pub tick : ℕ
  pub resource_kind : ResourceKind

pub data Response : Type 0 where
  described : Description → Response
  employable : Verdict → Response
  started : Verdict → Response
  worked : WorkResponse → Response
  ended : Response
  bought : BuyResponse → Response

abbrev pub map_reply : {W A B : Type 0} → (A → B) → W × Reply A → W × Reply B
map_reply f (w, ok a) = (w, ok (f a))
map_reply f (w, err c) = (w, err c)

module _ {S : Type 0} (calls : StoreCalls S) where
  -- The handler of a building.
  unfoldable pub serve : Method → ℕ → Request → Service S → Service S × Reply Response
  serve describe now r b = map_reply described (Service.describe calls now b)
  serve can_employ now r b = map_reply employable (Service.can_employ calls now b)
  serve start_shift now r b = map_reply started (Service.start_shift calls r.pip_id r.tick now b)
  serve work now r b = map_reply worked (Service.work calls r.pip_id r.tick now b)
  serve end_shift now r b = map_reply (λ _. ended) (Service.end_shift calls r.pip_id r.tick now b)
  serve buy now r b = (b, ok (bought (Service.buy r.resource_kind)))

  -- The handlers of the plain host.
  unfoldable pub host_handle : Method → ℕ → Request → Host S → Host S × Reply Response
  unfolding serve forward
  host_handle m now r h = forward calls r.workplace_id (serve m now r) h

abbrev pub method_name : Method → Bytes
method_name describe = bytes "Describe"
method_name can_employ = bytes "CanEmploy"
method_name start_shift = bytes "StartShift"
method_name work = bytes "Work"
method_name end_shift = bytes "EndShift"
method_name buy = bytes "Buy"

-- The `switch method`; `none` is an unknown method.
unfoldable pub method_of : Bytes → Option Method
method_of name =
    if name == bytes "Describe"
    then some describe
    else if name == bytes "CanEmploy"
    then some can_employ
    else if name == bytes "StartShift"
    then some start_shift
    else if name == bytes "Work"
    then some work
    else if name == bytes "EndShift"
    then some end_shift
    else if name == bytes "Buy"
    then some buy
    else none

-- A body, of which the code asks only whether it is blank, and protojson for the messages of one
-- method.
pub record Codec (Body : Type 0) : Type 0 where
  pub blank : Body
  pub is_blank : Body → Bool
  pub marshal_request : Method → Request → Option Body
  pub unmarshal_request : Method → Body → Option Request
  pub marshal_response : Method → Response → Option Body
  pub unmarshal_response : Method → Body → Option Response
  pub empty_response : Method → Response

abbrev pub empty_request : Request
empty_request = record { workplace_id = 0; pip_id = 0; tick = 0; resource_kind = unspecified }

abbrev pub slash : ℕ
slash = b'/'

abbrev is_slash : ℕ → Bool
is_slash c = nat_eq c slash

-- `/actors/<type>/<id>/method/<name>`, and the path of the sidecar for the same call.
abbrev pub actor_path : ℕ → Bytes → Bytes
actor_path id name = bytes "/actors/farm/" ++ (decimal id ++ (bytes "/method/" ++ name))

abbrev pub sidecar_path : ℕ → Bytes → Bytes
sidecar_path id name = bytes "/v1.0" ++ actor_path id name

-- What `serveActor` writes: a status, and the body of an answer of 200.
pub record HttpResponse (Body : Type 0) : Type 0 where
  pub status : ℕ
  pub body : Body

module _ {Body : Type 0} (codec : Codec Body) where
  abbrev pub plain : ℕ → HttpResponse Body
  plain status = record { status = status; body = codec.blank }

  abbrev pub read_request : Method → Body → Option Request
  read_request m body =
      if codec.is_blank body then some empty_request else codec.unmarshal_request m body

  abbrev pub write_response :
      {S : Type 0} → Method → Service S × Reply Response → Service S × Option Body
  write_response m (b, ok r) = (b, codec.marshal_response m r)
  write_response m (b, err c) = (b, none)

  abbrev pub read_response : Method → Body → Option Response
  read_response m body =
      if codec.is_blank body then some (codec.empty_response m) else codec.unmarshal_response m body

  unfoldable pub read_answer : Method → Option (HttpResponse Body) → Option Response
  read_answer m none = none
  read_answer m (some a) = if leb 300 a.status then none else read_response m a.body

  abbrev pub reply_of : {S : Type 0} → Host S → Service S × Option Body → Host S × HttpResponse Body
  reply_of h (b, none) = (record h { buildings = insert b.id b h.buildings }, plain 500)
  reply_of h (b, some body) =
      (record h { buildings = insert b.id b h.buildings }, record { status = 200; body = body })

abbrev pub or_unavailable : {S : Type 0} → Host S × Option Response → Host S × Reply Response
or_unavailable (h, none) = (h, err unavailable)
or_unavailable (h, some r) = (h, ok r)

module _ {S Body : Type 0} (calls : StoreCalls S) (codec : Codec Body) where
  unfoldable pub dispatch_known : Method → ℕ → Option Request → Service S → Service S × Option Body
  unfolding serve
  dispatch_known m now none b = (b, none)
  dispatch_known m now (some r) b = write_response codec m (serve calls m now r b)

  unfoldable pub dispatch : Option Method → ℕ → Body → Service S → Service S × Option Body
  unfolding dispatch_known
  dispatch none now body b = (b, none)
  dispatch (some m) now body b = dispatch_known m now (read_request codec m body) b

  unfoldable pub serve_building :
      Reply (Service S) → Bytes → ℕ → Body → Host S → Host S × HttpResponse Body
  unfolding dispatch method_of
  serve_building (err c) name now body h = (h, plain codec 404)
  serve_building (ok b) name now body h = reply_of codec h (dispatch (method_of name) now body b)

  -- The path is cut into five parts at least: actors, type, id, method, name.
  unfoldable pub serve_parts : Bool → List Bytes → ℕ → Body → Host S → Host S × HttpResponse Body
  unfolding serve_building
  serve_parts is_delete (actors ∷ type ∷ id ∷ rest) now body h = elim (parse_uint id) [
    | none ↦ (h, plain codec 400)
    | some n ↦ if is_delete then (h, plain codec 200) else elim rest [
      | [] ↦ (h, plain codec 200)
      | method ∷ names ↦ elim names [
        | [] ↦ (h, plain codec 200)
        | name ∷ more ↦ serve_building (resolve n h) name now body h
      ]
    ]
  ]
  serve_parts is_delete _ now body h = (h, plain codec 400)

  unfoldable pub serve_actor : Bool → Bytes → ℕ → Body → Host S → Host S × HttpResponse Body
  unfolding serve_parts
  serve_actor is_delete path now body h =
      serve_parts is_delete (split (trim is_slash path) slash) now body h
