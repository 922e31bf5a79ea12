-- ===== src/Work/Topology.antt =====
-- The declarations of the two sides taken together: which queues a publication reaches. A binding
-- of a topic exchange whose key has no wildcard takes the publications of that key.
use pipsim.Common.{◌≡◌, refl, ◌&&◌, List, [], ◌∷◌, ◌++◌, if◌then◌else◌}
use pipsim.Common.Tests.{◌==◌, ==-refl}
use pipsim.Common.Strings.{Bytes, Bytes-Eq, bytes, bytes_eq}
use pipsim.Work.{
  exchange, hired_key, hired_queue, offer_prefix, offer_queue, Declaration, exchange_declare,
  queue_declare, queue_bind,
}
use pipsim.Work.Consumer.{declare}
use pipsim.Work.Outcomes.{declare_outcomes, depth_queue}

abbrev pub reached : Bytes → Bytes → List Declaration → List Bytes
reached to key [] = []
reached to key (queue_bind queue bound_key from ∷ rest) =
    let later = reached to key rest in
    if (from == to) && (bound_key == key) then queue ∷ later else later
reached to key (exchange_declare _ _ ∷ rest) = reached to key rest
reached to key (queue_declare _ _ ∷ rest) = reached to key rest

-- An offer for the kind of a farm reaches the farm's queue alone, and an outcome the gateway's
-- queue alone, whichever side has declared first; the queue whose depth the gateway asks for is the
-- farm's, where the kind is `farm`.
pub topologies_agree :
    (kind : Bytes)
    → (reached exchange (offer_prefix ++ kind) (declare kind ++ declare_outcomes)
        ≡ offer_queue ∷ [])
      × (reached exchange (offer_prefix ++ kind) (declare_outcomes ++ declare kind)
          ≡ offer_queue ∷ [])
      × (reached exchange hired_key (declare kind ++ declare_outcomes) ≡ hired_queue ∷ [])
      × (reached exchange hired_key (declare_outcomes ++ declare kind) ≡ hired_queue ∷ [])
      × (depth_queue (bytes "farm") ≡ offer_queue)
unfolding declare declare_outcomes bytes_eq
topologies_agree kind = let own = ==-refl kind in (rw own refl, rw own refl, refl, refl, refl)
