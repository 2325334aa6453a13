-- ===== src/TaxId/Tests.antt =====
-- Runs of the checks of taxpayer numbers, and the theorems at those numbers.
use tax_deeds.TaxId.Cleaning.{normalize_doc_sound, IsValidDoc, IsCleaned}
use tax_deeds.TaxId.Checks.{valid_cnpj_iff, valid_cpf_iff, IsCpf, IsCnpj}
use tax_deeds.Text.{to_upper, codes}
use tax_deeds.Samples.{ascii}
use tax_deeds.TaxId.{digit_at, weigh, cpf_round, cnpj_round, valid_cpf, valid_cnpj, normalize_doc}
use tax_deeds.Base.{◌≡◌, refl, ◌↔◌, true, false, none, some, []}

good_cpf : valid_cpf (codes "52998224725") ≡ true
unfolding valid_cpf cpf_round weigh digit_at
good_cpf = refl

bad_cpf : valid_cpf (codes "52998224726") ≡ false
unfolding valid_cpf cpf_round weigh digit_at
bad_cpf = refl

good_cnpj : valid_cnpj (codes "11222333000181") ≡ true
unfolding valid_cnpj cnpj_round weigh digit_at
good_cnpj = refl

valid_cpf_iff_example : (valid_cpf (codes "52998224725") ≡ true) ↔ IsCpf (codes "52998224725")
valid_cpf_iff_example = valid_cpf_iff (codes "52998224725")

valid_cnpj_iff_example :
    (valid_cnpj (codes "11222333000181") ≡ true) ↔ IsCnpj (codes "11222333000181")
valid_cnpj_iff_example = valid_cnpj_iff (codes "11222333000181")

normalize_doc_sound_example :
    let (doc, flag) = normalize_doc ascii (codes "529.982.247-25") in
    IsCleaned (to_upper ascii (codes "529.982.247-25")) doc
    × ((flag ≡ none) ↔ (doc ≡ []))
    × ((flag ≡ some true) ↔ IsValidDoc doc)
normalize_doc_sound_example = normalize_doc_sound ascii (codes "529.982.247-25")
