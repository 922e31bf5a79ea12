-- ===== src/Gateway/Cors.antt =====
-- withCORS of services/world-gateway/cmd/gateway/main.go, which lets a page from another origin call
-- the gateway.
use pipsim.Common.{ℕ, Option, none, some, ◌++◌, if◌then◌else◌}
use pipsim.Common.Tests.{◌==◌}
use pipsim.Common.Strings.{Bytes, Bytes-Eq, bytes}
use pipsim.Common.Assoc.{Assoc, insert}

-- What a handler has written to a `http.ResponseWriter`: the headers under their canonical names,
-- and the status once it is sent.
pub record Response : Type 0 where
  pub headers : Assoc Bytes Bytes
  pub status : Option ℕ

-- `w.Header().Set`
abbrev set_header : Bytes → Bytes → Response → Response
set_header name value w = record w { headers = insert name value w.headers }

-- `w.WriteHeader`, which only counts the first time.
abbrev send_status : ℕ → Option ℕ → Option ℕ
send_status code none = some code
send_status code (some sent) = some sent

abbrev write_header : ℕ → Response → Response
write_header code w = record w { status = send_status code w.status }

abbrev no_content : ℕ
no_content = 204

-- The five calls of `Set`.
unfoldable pub set_cors_headers : Response → Response
set_cors_headers w = set_header (bytes "Access-Control-Max-Age") (bytes "86400") (
    set_header (bytes "Access-Control-Expose-Headers")
      (bytes "Grpc-Status, Grpc-Message, Connect-Content-Encoding")
      (set_header (bytes "Access-Control-Allow-Headers")
        (bytes "Content-Type, Connect-Protocol-Version, Connect-Timeout-Ms, "
          ++ bytes "Grpc-Timeout, X-Grpc-Web, X-User-Agent")
        (set_header (bytes "Access-Control-Allow-Methods") (bytes "POST, GET, OPTIONS")
          (set_header (bytes "Access-Control-Allow-Origin") (bytes "*") w))))

module _ {R S : Type 0} (method : R → Bytes) where
  -- A handler is a function of the request that writes a response and changes the program's state.
  unfoldable pub with_cors : (R → Response × S → Response × S) → R → Response × S → Response × S
  unfolding set_cors_headers
  with_cors handle r (w, s) =
      let w' = set_cors_headers w in
      if method r == bytes "OPTIONS" then (write_header no_content w', s) else handle r (w', s)
