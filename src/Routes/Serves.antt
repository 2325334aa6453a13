-- ===== src/Routes/Serves.antt =====
-- Which handler answers a request.
use tax_deeds.Routes.{Handlers, ServeMux, new_mux}
use tax_deeds.Web.{
  Request, WebHandler, served, panicked, http_request, panic_recovered, web_app, web_app_served,
}
use tax_deeds.Text.{codes, Text}
use tax_deeds.Base.{
  ◌∙◌, refl, ◌++◌, ap, ◌⊎◌, true, false, ◌∷◌, inr, [], inl, map, List, Bool, ◌≡◌, ℕ, ◌≢◌,
}

-- The endpoints, as the README of the repository lists them.
pub data Endpoint : Type 0 where
  healthz readyz upload get_document get_ocr by_document proprietarios atos onus : Endpoint

abbrev pub pattern_of : Endpoint → Text
pattern_of healthz = codes "GET /healthz"
pattern_of readyz = codes "GET /readyz"
pattern_of upload = codes "POST /api/v1/documents"
pattern_of get_document = codes "GET /api/v1/documents/{id}"
pattern_of get_ocr = codes "GET /api/v1/documents/{id}/ocr"
pattern_of by_document = codes "GET /api/v1/documents/{id}/matricula"
pattern_of proprietarios = codes "GET /api/v1/matriculas/{id}/proprietarios"
pattern_of atos = codes "GET /api/v1/matriculas/{id}/atos"
pattern_of onus = codes "GET /api/v1/matriculas/{id}/onus"

abbrev pub handler_of : Handlers → Endpoint → WebHandler
handler_of h healthz = h.healthz
handler_of h readyz = h.readyz
handler_of h upload = h.upload
handler_of h get_document = h.get_document
handler_of h get_ocr = h.get_ocr
handler_of h by_document = h.by_document
handler_of h proprietarios = h.proprietarios
handler_of h atos = h.atos
handler_of h onus = h.onus

Endpoint-discrete : Discrete Endpoint
Endpoint-discrete = hlevel

abbrev absent : Endpoint → List Endpoint → Bool
absent e [] = true
absent e (d ∷ ds) = elim (Endpoint-discrete d e) [ yes _ ↦ false | no _ ↦ absent e ds ]

-- Whether an endpoint is in the list just once.
abbrev once : Endpoint → List Endpoint → Bool
once e [] = false
once e (d ∷ ds) = elim (Endpoint-discrete d e) [ yes _ ↦ absent e ds | no _ ↦ once e ds ]

abbrev endpoints : List Endpoint
endpoints =
    onus ∷ atos ∷ proprietarios ∷ by_document ∷ get_ocr ∷ get_document ∷ upload ∷ readyz ∷ healthz
    ∷ []

once_each : (e : Endpoint) → once e endpoints ≡ true
unfolding Endpoint-discrete
once_each healthz = refl
once_each readyz = refl
once_each upload = refl
once_each get_document = refl
once_each get_ocr = refl
once_each by_document = refl
once_each proprietarios = refl
once_each atos = refl
once_each onus = refl

module _ (S : ServeMux) where
  abbrev pub NoneMatches : Request → List (Text × WebHandler) → Type 0
  NoneMatches r [] = Unit
  NoneMatches r ((p, h) ∷ ps) = (S.matches p r ≡ false) × NoneMatches r ps

  -- One pattern of the list matches the request, and its handler is `k`.
  abbrev pub OneMatches : Request → WebHandler → List (Text × WebHandler) → Type 0
  OneMatches r k [] = ⊥
  OneMatches r k ((p, h) ∷ ps) =
      ((S.matches p r ≡ true) × (h ≡ k) × NoneMatches r ps)
      ⊎ ((S.matches p r ≡ false) × OneMatches r k ps)

  -- What the documentation of the library says of the patterns that a mux has, and of a request that
  -- matches just one of them.
  pub record IsServeMux : Type 0 where
    pub patterns : S.Mux → List (Text × WebHandler)
    pub patterns-new : patterns S.new ≡ []
    pub patterns-handle_func :
        (p : Text) (h : WebHandler) (m : S.Mux)
        → patterns (S.handle_func p h m) ≡ (p, h) ∷ patterns m
    pub serve-OneMatches :
        (m : S.Mux) (r : Request) (k : WebHandler) (id : Text)
        → OneMatches r k (patterns m)
        → S.serve m r id ≡ k r id

  module _ (lawful : IsServeMux) where
    abbrev route : Handlers → Endpoint → Text × WebHandler
    route h e = (pattern_of e, handler_of h e)

    -- The patterns of the mux are those of the endpoints, each with its handler.
    patterns-new_mux : (h : Handlers) → lawful.patterns (new_mux S h) ≡ map (route h) endpoints
    unfolding new_mux
    patterns-new_mux h = simp (lawful.patterns-handle_func, lawful.patterns-new)

    module _ (h : Handlers) (e : Endpoint) (r : Request)
        (others : (d : Endpoint) → d ≢ e → S.matches (pattern_of d) r ≡ false) where
      none_match : (ds : List Endpoint) → absent e ds ≡ true → NoneMatches r (map (route h) ds)
      none_match [] a = tt
      none_match (d ∷ ds) a =
          elim (Endpoint-discrete d e)
              as (λ o.
                (elim o [ yes _ ↦ false | no _ ↦ absent e ds ]) ≡ true
                → NoneMatches r (map (route h) (d ∷ ds))) [
                  | yes p ↦ λ q. absurd (cc q)
                  | no n ↦ λ q. (others d n, none_match ds q)
                ]
            a

      one_matches :
          S.matches (pattern_of e) r ≡ true
          → (ds : List Endpoint) → once e ds ≡ true
          → OneMatches r (handler_of h e) (map (route h) ds)
      one_matches m [] a = absurd (cc a)
      one_matches m (d ∷ ds) a =
          elim (Endpoint-discrete d e)
              as (λ o.
                (elim o [ yes _ ↦ absent e ds | no _ ↦ once e ds ]) ≡ true
                → OneMatches r (handler_of h e) (map (route h) (d ∷ ds))) [
                  | yes p ↦ λ q. inl (
                    ap (λ x. S.matches (pattern_of x) r) p ∙ m,
                    ap (handler_of h) p,
                    none_match ds q,
                  )
                  | no n ↦ λ q. inr (others d n, one_matches m ds q)
                ]
            a

      -- A request that matches the pattern of one endpoint, and of no other, is served by the handler
      -- of that endpoint.
      pub serve-new_mux :
          S.matches (pattern_of e) r ≡ true
          → (id : Text) → S.serve (new_mux S h) r id ≡ handler_of h e r id
      serve-new_mux m id =
          lawful.serve-OneMatches (new_mux S h) r (handler_of h e) id
            (rw (patterns-new_mux h) (one_matches m endpoints (once_each e)))

      -- In the server of cmd/api, a request that matches the pattern of one endpoint, and of no other,
      -- is answered by the handler of that endpoint, under a request ID of its own, with a log entry
      -- of the answer's status and that ID; and if the handler panics, the panic is logged and the
      -- answer is 500.
      pub endpoint_served :
          (fresh id : Text)
          → S.matches (pattern_of e) r ≡ true
          → ((status : ℕ) × (body : Text) × ((handler_of h e r fresh).1 ≡ served status body)
              × (web_app fresh (S.serve (new_mux S h)) r id ≡ (
                (handler_of h e r fresh).0 ++ http_request r status fresh ∷ [],
                served status body,
              )))
            ⊎ (((handler_of h e r fresh).1 ≡ panicked)
                × ((body : Text) × (web_app fresh (S.serve (new_mux S h)) r id ≡ (
                  (handler_of h e r fresh).0 ++ panic_recovered r.path ∷ [],
                  served 500 body,
                ))))
      endpoint_served fresh id m =
          rw (← serve-new_mux m fresh) (web_app_served fresh (S.serve (new_mux S h)) r id)
