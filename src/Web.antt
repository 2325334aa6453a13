-- ===== src/Web.antt =====
-- pkg/middleware/middleware.go, and the order in which cmd/api/main.go puts the middlewares round the
-- routes.
--
-- A handler that panics has written nothing yet. Durations are left out of the log.
use mathlib.Core.List.{reverse}
use tax_deeds.Text.{codes, Text}
use tax_deeds.Base.{ℕ, ◌≡◌, refl, ◌⊎◌, inl, inr, List, [], ◌∷◌, ◌++◌}

pub record Request : Type 0 where
  pub method : Text
  pub path : Text

pub data Served : Type 0 where
  served : ℕ → Text → Served  -- status and body
  panicked : Served

pub data LogEntry : Type 0 where
  http_request : Request → ℕ → Text → LogEntry  -- with the status and the request ID
  panic_recovered : Text → LogEntry

-- A handler, from the request and the request ID of its context to what it logs and answers.
abbrev pub WebHandler : Type 0
WebHandler = Request → Text → List LogEntry × Served

abbrev pub Middleware : Type 0
Middleware = WebHandler → WebHandler

-- RequestID; `fresh` is the random ID.
abbrev pub request_id_mw : Text → Middleware
request_id_mw fresh next = λ r id. next r fresh

abbrev pub log_served : Request → Text → List LogEntry × Served → List LogEntry × Served
log_served r id (entries, served status body) =
    (entries ++ http_request r status id ∷ [], served status body)
log_served r id (entries, panicked) = (entries, panicked)

-- Logging: a panic passes by the call of the logger.
abbrev pub logging_mw : Middleware
logging_mw next = λ r id. log_served r id (next r id)

abbrev pub recovered : Request → List LogEntry × Served → List LogEntry × Served
recovered r (entries, served status body) = (entries, served status body)
recovered r (entries, panicked) = (
  entries ++ panic_recovered r.path ∷ [],
  served 500 (codes "{\"error\":{\"code\":\"internal\",\"message\":\"internal server error\"}}"),
)

-- Recover
abbrev pub recover_mw : Middleware
recover_mw next = λ r id. recovered r (next r id)

-- The loop of Chain, from the last middleware to the first.
unfoldable pub chain_loop : WebHandler → List Middleware → WebHandler
chain_loop h [] = h
chain_loop h (mw ∷ mws) = chain_loop (mw h) mws

unfoldable pub chain : WebHandler → List Middleware → WebHandler
unfolding chain_loop
chain h mws = chain_loop h (reverse mws)

-- The handler of the server.
unfoldable pub web_app : Text → WebHandler → WebHandler
unfolding chain
web_app fresh mux = chain mux (recover_mw ∷ request_id_mw fresh ∷ logging_mw ∷ [])

passed :
    (r : Request) (id : Text) (out : List LogEntry × Served)
    → ((status : ℕ) × (body : Text) × (out.1 ≡ served status body)
        × (recovered r (log_served r id out)
            ≡ (out.0 ++ http_request r status id ∷ [], served status body)))
      ⊎ ((out.1 ≡ panicked)
          × ((body : Text) × (recovered r (log_served r id out)
                ≡ (out.0 ++ panic_recovered r.path ∷ [], served 500 body))))
passed r id (entries, served status body) = inl (status, body, refl, refl)
passed r id (entries, panicked) = inr (refl, (_, refl))

-- No panic gets out: the answer is that of the mux, logged with the request's own ID, or 500 with the
-- panic in the log.
pub web_app_served :
    (fresh : Text) (mux : WebHandler) (r : Request) (id : Text)
    → ((status : ℕ) × (body : Text) × ((mux r fresh).1 ≡ served status body)
        × (web_app fresh mux r id
            ≡ ((mux r fresh).0 ++ http_request r status fresh ∷ [], served status body)))
      ⊎ (((mux r fresh).1 ≡ panicked)
          × ((body : Text) × (web_app fresh mux r id
                ≡ ((mux r fresh).0 ++ panic_recovered r.path ∷ [], served 500 body))))
unfolding web_app chain chain_loop
web_app_served fresh mux r id = passed r fresh (mux r fresh)
