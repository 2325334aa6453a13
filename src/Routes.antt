-- ===== src/Routes.antt =====
-- internal/routes/routes.go: the endpoints of the API with their patterns.
--
-- http.ServeMux is the parameter ServeMux. What its documentation says of the requests that match one
-- pattern only is in IsServeMux.
pub mod Serves
mod Tests
use tax_deeds.Base.{
  ℕ, zero, suc, ◌+◌, ◌-◌, ◌*◌, ◌≤◌, ◌<◌, ◌≡◌, ◌≢◌, refl, sym, ap, ◌∙◌, ◌↔◌, ◌⊎◌, inl, inr, Bool,
  true, false, ◌&&◌, ◌||◌, not, Option, none, some, List, [], ◌∷◌, ◌++◌, map, arith, ltb, leb, ◌==◌,
  if◌then◌else◌, Bool-cases, All, length,
}
use tax_deeds.Web.{Request, WebHandler}
use tax_deeds.Text.{codes, Text}

-- Handlers, by the methods that are registered.
pub record Handlers : Type 0 where
  pub healthz : WebHandler
  pub readyz : WebHandler
  pub upload : WebHandler
  pub get_document : WebHandler
  pub get_ocr : WebHandler
  pub by_document : WebHandler
  pub proprietarios : WebHandler
  pub atos : WebHandler
  pub onus : WebHandler

pub record ServeMux : Type 1 where
  pub Mux : Type 0
  pub new : Mux
  pub handle_func : Text → WebHandler → Mux → Mux
  pub serve : Mux → WebHandler
  pub matches : Text → Request → Bool  -- of a pattern

module _ (S : ServeMux) where
  -- NewMux
  unfoldable pub new_mux : Handlers → S.Mux
  new_mux h =
      let m = S.handle_func (codes "GET /healthz") h.healthz S.new in
      let m = S.handle_func (codes "GET /readyz") h.readyz m in
      let m = S.handle_func (codes "POST /api/v1/documents") h.upload m in
      let m = S.handle_func (codes "GET /api/v1/documents/{id}") h.get_document m in
      let m = S.handle_func (codes "GET /api/v1/documents/{id}/ocr") h.get_ocr m in
      let m = S.handle_func (codes "GET /api/v1/documents/{id}/matricula") h.by_document m in
      let m = S.handle_func (codes "GET /api/v1/matriculas/{id}/proprietarios") h.proprietarios m in
      let m = S.handle_func (codes "GET /api/v1/matriculas/{id}/atos") h.atos m in
      S.handle_func (codes "GET /api/v1/matriculas/{id}/onus") h.onus m
