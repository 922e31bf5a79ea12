-- ===== src/Farm/Actors/Equals.antt =====
-- A farm of Dapr actors (services/workplaces/farm/internal/farm/dapr.go) against the plain host of
-- host.go.
use pipsim.Common.{
  ℕ, ◌<◌, ◌≡◌, ◌≢◌, refl, ap, inl, inr, false, Option, none, some, [], ◌∷◌, arith, Bool-cases,
  nat_eq,
}
use pipsim.Common.Tests.{ℕ-Eq}
use pipsim.Common.Words.{word_size}
use pipsim.Common.Strings.{Bytes, Bytes-Eq}
use pipsim.Common.Text.{parse_uint-decimal}
use pipsim.Common.Assoc.{Assoc, lookup, insert}
use pipsim.Connect.{Reply, Reply-cases, ok, err, Code, unavailable}
use pipsim.Workplace.{unspecified}
use pipsim.Farm.Store.{StoreCalls}
use pipsim.Farm.Service
use pipsim.Farm.Service.{Service}
use pipsim.Farm.Host.{Host, only, or_not_found, resolve, forward}
use pipsim.Farm.Actors.{
  Method, describe, can_employ, start_shift, work, end_shift, buy, Request, Response, described,
  employable, started, worked, ended, bought, map_reply, serve, host_handle, method_name, Codec,
  empty_request, actor_path, sidecar_path, HttpResponse, write_response, dispatch, reply_of,
  serve_building, serve_parts, serve_actor, read_answer, or_unavailable,
}
use pipsim.Farm.Actors.Paths.{method_of-method_name, parts_of_path}
use pipsim.Farm.Actors.Callers.{call, actor_handle}

-- The fields that a method's message has; the others are not sent.
abbrev pub sent : Method → Request → Request
sent describe r = record empty_request { workplace_id = r.workplace_id }
sent can_employ r = record empty_request { workplace_id = r.workplace_id; pip_id = r.pip_id }
sent start_shift r = record r { resource_kind = unspecified }
sent work r = record r { resource_kind = unspecified }
sent end_shift r = record r { resource_kind = unspecified }
sent buy r = r

abbrev pub Suits : Method → Response → Type 0
Suits describe (described _) = Unit
Suits can_employ (employable _) = Unit
Suits start_shift (started _) = Unit
Suits work (worked _) = Unit
Suits end_shift ended = Unit
Suits buy (bought _) = Unit
Suits _ _ = ⊥

-- protojson: a message is written as text that is not blank, and read back.
pub record IsCodec {Body : Type 0} (codec : Codec Body) : Type 0 where
  pub request_text : Method → Request → Body
  pub writes_request :
      (m : Method) (r : Request) → codec.marshal_request m r ≡ some (request_text m r)
  pub request_full : (m : Method) (r : Request) → codec.is_blank (request_text m r) ≡ false
  pub reads_request :
      (m : Method) (r : Request) → codec.unmarshal_request m (request_text m r) ≡ some (sent m r)
  pub response_text : Method → Response → Body
  pub writes_response :
      (m : Method) (r : Response)
      → Suits m r
      → codec.marshal_response m r ≡ some (response_text m r)
  pub response_full : (m : Method) (r : Response) → codec.is_blank (response_text m r) ≡ false
  pub reads_response :
      (m : Method) (r : Response)
      → Suits m r
      → codec.unmarshal_response m (response_text m r) ≡ some r

-- The buildings stand under their own ids, which are uint64 above zero.
abbrev pub IsHost : {S : Type 0} → Host S → Type 0
IsHost {S} h =
    (id : ℕ) (b : Service S)
    → lookup id h.buildings ≡ some b
    → (b.id ≡ id) × (id ≢ 0) × (id < word_size)

module _ {S : Type 0} (calls : StoreCalls S) where
  -- A handler fails only where the store does, and answers by the message of its method.
  abbrev Proper : Method → Reply Response → Type 0
  Proper m (ok r) = Suits m r
  Proper m (err c) = c ≡ unavailable

  answer-Proper :
      {A B : Type 0} (m : Method) (f : B → Response)
      → ((x : B) → Suits m (f x))
      → (b : Service S) (respond : A → B) (r : S × Option A)
      → Proper m (map_reply f (Service.answer b respond r)).1
  unfolding Service.answer
  answer-Proper m f h b respond (s, none) = refl
  answer-Proper m f h b respond (s, some a) = h (respond a)

  serve-Proper :
      (m : Method) (now : ℕ) (r : Request) (b : Service S) → Proper m (serve calls m now r b).1
  unfolding serve Service.describe Service.can_employ Service.start_shift Service.work
      Service.end_shift
  serve-Proper describe now r b = answer-Proper describe described (λ x. tt) b _ _
  serve-Proper can_employ now r b = answer-Proper can_employ employable (λ x. tt) b _ _
  serve-Proper start_shift now r b = answer-Proper start_shift started (λ x. tt) b _ _
  serve-Proper work now r b = answer-Proper work worked (λ x. tt) b _ _
  serve-Proper end_shift now r b = answer-Proper end_shift (λ _. ended) (λ x. tt) b _ _
  serve-Proper buy now r b = tt

  serve-sent :
      (m : Method) (now : ℕ) (r : Request) (b : Service S)
      → serve calls m now (sent m r) b ≡ serve calls m now r b
  unfolding serve
  serve-sent describe now r b = refl
  serve-sent can_employ now r b = refl
  serve-sent start_shift now r b = refl
  serve-sent work now r b = refl
  serve-sent end_shift now r b = refl
  serve-sent buy now r b = refl

module _ {S Body : Type 0} (calls : StoreCalls S) (codec : Codec Body) (sound : IsCodec codec) where
  -- What comes back through the two codecs is what the handler answered.
  answer_back :
      (m : Method) (h : Host S) (b : Service S) (reply : Reply Response)
      → Proper calls m reply
      → let (h', answer) = reply_of codec h (write_response codec m (b, reply)) in
        or_unavailable (h', read_answer codec m (some answer))
        ≡ (record h { buildings = insert b.id b h.buildings }, reply)
  unfolding read_answer
  answer_back m h b (err c) p = rw p refl
  answer_back m h b (ok r) p =
      let text = sound.response_text m r in
      rw (sound.writes_response m r p, sound.response_full m r, sound.reads_response m r p) refl

  dispatch-text :
      (m : Method) (now : ℕ) (r : Request) (b : Service S)
      → dispatch calls codec (some m) now (sound.request_text m r) b
        ≡ write_response codec m (serve calls m now r b)
  unfolding dispatch
  dispatch-text m now r b =
      let text = sound.request_text m r in
      rw (sound.request_full m r, sound.reads_request m r)
        (ap (write_response codec m) (serve-sent calls m now r b))

  serve_actor-path :
      (id : ℕ) (m : Method) (now : ℕ) (body : Body) (h : Host S)
      → id < word_size
      → serve_actor calls codec false (actor_path id (method_name m)) now body h
        ≡ serve_building calls codec (resolve id h) (method_name m) now body h
  unfolding serve_actor
  serve_actor-path id m now body h small =
      rw (parts_of_path id m) (rw (parse_uint-decimal id small, serve_parts) refl)

  -- The sidecar passes a call on to the endpoint of the actor that it names, and its answer back.
  abbrev pub Routes : (Bytes → ℕ → Body → Host S → Host S × Option (HttpResponse Body)) → Type 0
  Routes deliver =
      (id : ℕ) (m : Method) (now : ℕ) (body : Body) (h : Host S)
      → deliver (sidecar_path id (method_name m)) now body h ≡ (
          let (h', answer) =
            serve_actor calls codec false (actor_path id (method_name m)) now body h in
          (h', some answer))

  module _ (deliver : Bytes → ℕ → Body → Host S → Host S × Option (HttpResponse Body))
      (routed : Routes deliver) where
    call-building :
        (m : Method) (now : ℕ) (r : Request) (h : Host S) (b : Service S)
        → b.id < word_size
        → resolve b.id h ≡ ok b
        → or_unavailable (call codec deliver b.id m now r h) ≡ (
            let (b', reply) = serve calls m now r b in
            (record h { buildings = insert b'.id b' h.buildings }, reply))
    unfolding call serve_building
    call-building m now r h b small e =
        let text = sound.request_text m r in
        rw
          (
            sound.writes_request m r,
            routed b.id m now text h,
            serve_actor-path b.id m now text h small,
          )
          (rw (e, serve_building)
            (rw (method_of-method_name m, dispatch-text m now r b)
              (answer_back m h (serve calls m now r b).0 (serve calls m now r b).1
                (serve-Proper calls m now r b))))

    serve-with_id :
        (m : Method) (now : ℕ) (r : Request) (id : ℕ) (b : Service S)
        → serve calls m now (record r { workplace_id = id }) b ≡ serve calls m now r b
    unfolding serve
    serve-with_id describe now r id b = refl
    serve-with_id can_employ now r id b = refl
    serve-with_id start_shift now r id b = refl
    serve-with_id work now r id b = refl
    serve-with_id end_shift now r id b = refl
    serve-with_id buy now r id b = refl

    -- A building that was resolved is found again by its own id.
    only-held :
        (entries : Assoc ℕ (Service S)) (b : Service S)
        → only entries ≡ ok b
        → (id : ℕ) × (lookup id entries ≡ some b)
    unfolding lookup
    only-held [] b e = cc
    only-held ((id, b') ∷ []) b e = (id, ground arith)
    only-held (x ∷ (y ∷ rest)) b e = cc

    or_not_found-held :
        (o : Option (Service S)) (b : Service S) → or_not_found o ≡ ok b → o ≡ some b
    or_not_found-held none b e = cc
    or_not_found-held (some b') b e = ground arith

    resolve-held :
        (id : ℕ) (h : Host S) (b : Service S)
        → resolve id h ≡ ok b
        → (own : ℕ) × (lookup own h.buildings ≡ some b)
    unfolding resolve
    resolve-held id h b e = elim (Bool-cases (nat_eq id 0)) [
      | inl none_named ↦ only-held h.buildings b (rw none_named at e)
      | inr named ↦ (id, or_not_found-held (lookup id h.buildings) b (rw named at e))
    ]

    resolve-own :
        (id : ℕ) (h : Host S) (b : Service S)
        → IsHost h
        → resolve id h ≡ ok b
        → (resolve b.id h ≡ ok b) × (b.id < word_size)
    unfolding resolve
    resolve-own id h b hosted e =
        let (own, held) = resolve-held id h b e in
        let (same, above, small) = hosted own b held in
        (rw same (rw held (ground arith)), omega arith)

    host_handle-err :
        (m : Method) (now : ℕ) (r : Request) (h : Host S) (c : Code)
        → resolve r.workplace_id h ≡ err c
        → host_handle calls m now r h ≡ (h, err c)
    unfolding host_handle forward
    host_handle-err m now r h c e = rw (e, forward) refl

    host_handle-ok :
        (m : Method) (now : ℕ) (r : Request) (h : Host S) (b : Service S)
        → resolve r.workplace_id h ≡ ok b
        → host_handle calls m now r h ≡ (
            let (b', reply) = serve calls m now r b in
            (record h { buildings = insert b'.id b' h.buildings }, reply))
    unfolding host_handle forward
    host_handle-ok m now r h b e = rw (e, forward) refl

    -- A farm of actors answers every request as the plain host does, on every branch: the building
    -- that is meant, an unknown one, a store that fails; and its buildings are left the same. The
    -- sidecar routes a call to the endpoint of the actor, and protojson reads back what it wrote.
    pub actor_handle-eq :
        (m : Method) (now : ℕ) (r : Request) (h : Host S)
        → IsHost h
        → actor_handle codec deliver m now r h ≡ host_handle calls m now r h
    unfolding actor_handle
    actor_handle-eq m now r h hosted = elim (Reply-cases (resolve r.workplace_id h)) [
      | inl (c, e) ↦ rw (e, host_handle-err m now r h c e) refl
      | inr (b, e) ↦
          let (own, small) = resolve-own r.workplace_id h b hosted e in
          rw (e, host_handle-ok m now r h b e, ← serve-with_id m now r b.id b)
            (call-building m now (record r { workplace_id = b.id }) h b small own)
    ]
