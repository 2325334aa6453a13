-- ===== src/Routes/Tests.antt =====
-- The routes on a small mux.
use tax_deeds.Base.{
  ℕ, ◌≡◌, ◌≢◌, refl, ap, ◌⊎◌, inl, inr, Bool, true, false, List, [], ◌∷◌, ◌++◌, if◌then◌else◌,
}
use tax_deeds.Routes.Serves.{Endpoint, IsServeMux, OneMatches, pattern_of, endpoint_served}
use tax_deeds.Routes.{Handlers, ServeMux, new_mux}
use tax_deeds.Web.{Request, WebHandler, served, panicked, http_request, panic_recovered, web_app}
use tax_deeds.Text.{same, codes, Text}

abbrev Table : Type 0
Table = List (Text × WebHandler)

abbrev fits : Text → Request → Bool
fits p r = same p (r.method ++ codes " " ++ r.path)

abbrev serve_first : Table → WebHandler
serve_first [] r id = ([], served 404 [])
serve_first ((p, h) ∷ ps) r id = if fits p r then h r id else serve_first ps r id

-- A mux for patterns without wildcards.
abbrev plain_mux : ServeMux
plain_mux = record {
  Mux = Table;
  new = [];
  handle_func = λ p h m. (p, h) ∷ m;
  serve = serve_first;
  matches = fits;
}

serve_first_one :
    (m : Table) (r : Request) (k : WebHandler) (id : Text)
    → OneMatches plain_mux r k m
    → serve_first m r id ≡ k r id
serve_first_one [] r k id o = absurd o
serve_first_one ((p, h) ∷ ps) r k id (inl (hit, e, _)) = rw hit (ap (λ (g : WebHandler). g r id) e)
serve_first_one ((p, h) ∷ ps) r k id (inr (miss, o)) = rw miss (serve_first_one ps r k id o)

plain_mux-IsServeMux : IsServeMux plain_mux
plain_mux-IsServeMux = record {
  patterns = λ m. m;
  patterns-new = refl;
  patterns-handle_func = λ p h m. refl;
  serve-OneMatches = serve_first_one;
}

abbrev answers : ℕ → WebHandler
answers status r id = ([], served status r.path)

abbrev panics : WebHandler
panics r id = ([], panicked)

abbrev some_handlers : Handlers
some_handlers = record {
  healthz = answers 200;
  readyz = answers 503;
  upload = answers 202;
  get_document = answers 404;
  get_ocr = answers 404;
  by_document = answers 409;
  proprietarios = panics;
  atos = answers 400;
  onus = answers 200;
}

abbrev upload_request : Request
upload_request = record { method = codes "POST"; path = codes "/api/v1/documents" }

only_upload : (d : Endpoint) → d ≢ Endpoint.upload → fits (pattern_of d) upload_request ≡ false
unfolding same
only_upload Endpoint.healthz n = refl
only_upload Endpoint.readyz n = refl
only_upload Endpoint.upload n = absurd (n refl)
only_upload Endpoint.get_document n = refl
only_upload Endpoint.get_ocr n = refl
only_upload Endpoint.by_document n = refl
only_upload Endpoint.proprietarios n = refl
only_upload Endpoint.atos n = refl
only_upload Endpoint.onus n = refl

fits_upload : fits (codes "POST /api/v1/documents") upload_request ≡ true
unfolding same
fits_upload = refl

endpoint_served_example :
    ((status : ℕ) × (body : Text) × ((some_handlers.upload upload_request (codes "id")).1
        ≡ served status body)
      × (web_app (codes "id") (serve_first (new_mux plain_mux some_handlers)) upload_request []
          ≡ (http_request upload_request status (codes "id") ∷ [], served status body)))
    ⊎ (((some_handlers.upload upload_request (codes "id")).1 ≡ panicked)
        × ((body : Text) × (web_app
                (codes "id")
                (serve_first (new_mux plain_mux some_handlers))
                upload_request
                []
              ≡ (panic_recovered (codes "/api/v1/documents") ∷ [], served 500 body))))
endpoint_served_example =
    endpoint_served plain_mux plain_mux-IsServeMux some_handlers Endpoint.upload upload_request
      only_upload (codes "id") [] fits_upload
