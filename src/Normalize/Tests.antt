-- ===== src/Normalize/Tests.antt =====
-- Normalize on a whole extraction.
use tax_deeds.Normalize.Idempotent.{normalize_idem}
use tax_deeds.Samples.{ascii-IsUnicode, sitio, ascii}
use tax_deeds.Normalize.{normalize}
use tax_deeds.Base.{◌≡◌}

normalize_idem_example : normalize ascii (normalize ascii sitio) ≡ normalize ascii sitio
normalize_idem_example = normalize_idem ascii ascii-IsUnicode sitio
