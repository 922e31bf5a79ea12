-- ===== src/Gateway/Tests.antt =====
-- Runs of the gateway's list of structures and of its headers for browsers.
use pipsim.Common.{ℕ, ◌+◌, ◌≡◌, refl, none, some, [], ◌∷◌}
use pipsim.Common.Strings.{Bytes, Bytes-Eq, bytes, bytes_eq}
use pipsim.Common.Assoc.{lookup, insert}
use pipsim.Common.Text.{split, trim, trim_left, trim_right}
use pipsim.Gateway.Cors.{Response, with_cors, set_cors_headers}
use pipsim.Gateway.Structures.{Structure, parse_structures}

abbrev bank : Structure
bank = record {
  kind = bytes "bank";
  role = bytes "double-entry ledger";
  health_url = bytes "http://bank:8082/healthz";
}

abbrev core : Structure
core = record { kind = bytes "sim-core"; role = bytes "the world"; health_url = [] }

-- Blanks, an empty entry, one with no kind, and one with its role alone.
run_parse :
    parse_structures (bytes " bank | ledger;; |x|y ;core")
    ≡ record { kind = bytes "bank"; role = bytes "ledger"; health_url = [] }
      ∷ record { kind = bytes "core"; role = []; health_url = [] }
      ∷ []
unfolding parse_structures split trim trim_left trim_right
run_parse = refl

-- A handler that answers 200 and counts its calls. It is asked for by a preflight, and by a POST.
abbrev counted : Bytes → Response × ℕ → Response × ℕ
counted method (w, calls) = (record w { status = some 200 }, calls + 1)

abbrev fresh : Response
fresh = record { headers = []; status = none }

run-preflight :
    let (w, calls) = with_cors (λ method. method) counted (bytes "OPTIONS") (fresh, 0) in
    (w.status ≡ some 204)
    × (calls ≡ 0)
    × (lookup (bytes "Access-Control-Allow-Origin") w.headers ≡ some (bytes "*"))
unfolding with_cors set_cors_headers insert lookup bytes_eq
run-preflight = (refl, refl, refl)

run-passed :
    let (w, calls) = with_cors (λ method. method) counted (bytes "POST") (fresh, 0) in
    (w.status ≡ some 200)
    × (calls ≡ 1)
    × (lookup (bytes "Access-Control-Allow-Methods") w.headers ≡ some (bytes "POST, GET, OPTIONS"))
unfolding with_cors set_cors_headers insert lookup bytes_eq
run-passed = (refl, refl, refl)
