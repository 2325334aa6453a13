-- ===== src/Normalize/Idempotent.antt =====
-- Normalize applied to a normalised aggregate changes nothing.
use tax_deeds.Dto.{ExtractedMatricula, Onus, Ato, Proprietario, Parte}
use tax_deeds.Text.{Text, Unicode}
use tax_deeds.Normalize.{
  normalize_ato, normalize_proprietario, normalize_parte, normalize_onus, normalize, with_currency,
  derive_status,
}
use tax_deeds.Base.{◌≡◌, refl, Option, none, some, List, [], ◌∷◌, map}
use tax_deeds.Text.Laws.{IsUnicode, lower-trim_idem, upper-trim_idem}
use tax_deeds.Dates.Accepted.{normalize_date_idem}
use tax_deeds.TaxId.Cleaning.{normalize_doc_idem}

with_currency_idem {ℓ} :
    {A : Type ℓ} (valor : Option A) (moeda : Text)
    → with_currency valor (with_currency valor moeda) ≡ with_currency valor moeda
unfolding with_currency
with_currency_idem none moeda = refl
with_currency_idem (some v) [] = refl
with_currency_idem (some v) (c ∷ s) = refl

derive_status_idem :
    (ato status : Text) → derive_status ato (derive_status ato status) ≡ derive_status ato status
unfolding derive_status
derive_status_idem [] [] = refl
derive_status_idem [] (c ∷ s) = refl
derive_status_idem (c ∷ s) status = refl

map_idem {ℓ} :
    {A : Type ℓ} (f : A → A)
    → ((a : A) → f (f a) ≡ f a)
    → (xs : List A) → map f (map f xs) ≡ map f xs
map_idem f h [] = refl
map_idem f h (x ∷ xs) = λ i. h x i ∷ map_idem f h xs i

module _ (u : Unicode) (h : IsUnicode u) where
  normalize_parte_idem : (p : Parte) → normalize_parte u (normalize_parte u p) ≡ normalize_parte u p
  unfolding normalize_parte
  normalize_parte_idem p = λ i. record p {
    papel = lower-trim_idem u h p.papel i;
    tipo_pessoa = lower-trim_idem u h p.tipo_pessoa i;
    cpf_cnpj = (normalize_doc_idem u p.cpf_cnpj i).0;
    cpf_cnpj_valido = (normalize_doc_idem u p.cpf_cnpj i).1;
  }

  module _ {Num : Type 0} where
    normalize_ato_idem : (a : Ato Num) → normalize_ato u (normalize_ato u a) ≡ normalize_ato u a
    unfolding normalize_ato
    normalize_ato_idem a = λ i. record a {
      kind = lower-trim_idem u h a.kind i;
      tipo = lower-trim_idem u h a.tipo i;
      date = normalize_date_idem u a.date i;
      moeda = with_currency_idem a.valor a.moeda i;
      partes = map_idem (normalize_parte u) normalize_parte_idem a.partes i;
    }

    normalize_proprietario_idem :
        (p : Proprietario Num)
        → normalize_proprietario u (normalize_proprietario u p) ≡ normalize_proprietario u p
    unfolding normalize_proprietario
    normalize_proprietario_idem p = λ i. record p {
      tipo_pessoa = lower-trim_idem u h p.tipo_pessoa i;
      cpf_cnpj = (normalize_doc_idem u p.cpf_cnpj i).0;
      cpf_cnpj_valido = (normalize_doc_idem u p.cpf_cnpj i).1;
    }

    normalize_onus_idem :
        (o : Onus Num) → normalize_onus u (normalize_onus u o) ≡ normalize_onus u o
    unfolding normalize_onus
    normalize_onus_idem o = λ i. record o {
      tipo = lower-trim_idem u h o.tipo i;
      moeda = with_currency_idem o.valor o.moeda i;
      status = derive_status_idem o.ato_cancelamento o.status i;
    }

    -- If changing the case of letters beyond ASCII is idempotent and makes no blanks, normalising an
    -- extraction twice is normalising it once.
    pub normalize_idem : (m : ExtractedMatricula Num) → normalize u (normalize u m) ≡ normalize u m
    unfolding normalize
    normalize_idem m = λ i. record m {
      data_abertura = normalize_date_idem u m.data_abertura i;
      cartorio = record m.cartorio { uf = upper-trim_idem u h m.cartorio.uf i };
      atos = map_idem (normalize_ato u) normalize_ato_idem m.atos i;
      proprietarios =
          map_idem (normalize_proprietario u) normalize_proprietario_idem m.proprietarios i;
      onus = map_idem (normalize_onus u) normalize_onus_idem m.onus i;
    }
