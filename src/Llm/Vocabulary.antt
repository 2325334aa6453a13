-- ===== src/Llm/Vocabulary.antt =====
-- validateEnums against the constraints of the database: what it accepts is stored after Normalize,
-- but for the case and the blanks of an ônus's status.
use tax_deeds.Text.Laws.{same_iff}
use tax_deeds.Dates.Accepted.{IsRead-IsDate, normalize_date-IsOutcome}
use tax_deeds.Dates.{date_layouts, normalize_date}
use tax_deeds.Normalize.{
  normalize_ato, normalize, lowered, normalize_parte, normalize_proprietario, derive_status,
  normalize_onus,
}
use tax_deeds.Dto.{ExtractedMatricula, Parte, Proprietario, Ato, Onus}
use tax_deeds.Schema.{
  ProprietarioFits, AtoFits, Fits, ParteFits, status_values, OnusFits, OneOf, DateFits, NullOrOneOf,
}
use tax_deeds.Text.{same, is_empty, Text, Unicode}
use tax_deeds.Llm.Enums.{
  allowed_tipos, allowed_kinds, allowed_papeis, check_atos, validate_enums, check_proprietarios,
  check_partes, one_of, enum_ok,
}
use tax_deeds.Base.{
  ◌≡◌, ◌≢◌, refl, ◌↔◌, ◌⊎◌, inl, inr, true, false, none, List, [], ◌∷◌, map, arith, Bool-cases, All,
}

-- An accepted value is, in lower case and without blanks, one of the allowed ones.
one_of-OneOf : (v : Text) (ts : List Text) → one_of v ts ≡ true → OneOf v ts
unfolding one_of
one_of-OneOf v [] h = absurd (ground arith)
one_of-OneOf v (t ∷ ts) h = elim (Bool-cases (same v t)) [
  | inl e ↦ inl ((same_iff v t).0 e)
  | inr e ↦ inr (one_of-OneOf v ts (rw (e, one_of) at h))
]

enum_ok-required :
    (u : Unicode) (v : Text) (ts : List Text) → enum_ok u v false ts ≡ true → OneOf (lowered u v) ts
unfolding enum_ok
enum_ok-required u v ts h = one_of-OneOf (lowered u v) ts (ground arith)

is_empty-nil : (s : Text) → is_empty s ≡ true → s ≡ []
is_empty-nil [] h = refl
is_empty-nil (c ∷ s) h = cc

enum_ok-optional :
    (u : Unicode) (v : Text) (ts : List Text)
    → enum_ok u v true ts ≡ true
    → NullOrOneOf (lowered u v) ts
unfolding enum_ok
enum_ok-optional u v ts h = elim (Bool-cases (is_empty (lowered u v))) [
  | inl e ↦ inl (is_empty-nil _ e)
  | inr e ↦ inr (one_of-OneOf (lowered u v) ts (ground arith))
]

date_fits : (u : Unicode) (s : Text) → DateFits (normalize_date u s)
date_fits u s = elim (normalize_date-IsOutcome u s) [
  | inl (e, _) ↦ inl e
  | inr (d, r, e) ↦ inr (d, IsRead-IsDate date_layouts _ d r, e)
]

-- The status that Normalize derives is one of the schema's, exactly if a cancelling act is named, or
-- the status is empty or one of them.
derived_fits :
    (ato status : Text)
    → (ato ≢ []) ⊎ NullOrOneOf status status_values
    → OneOf (derive_status ato status) status_values
unfolding derive_status
derived_fits (c ∷ s) status h = inr (inl refl)
derived_fits [] [] h = inl refl
derived_fits [] (c ∷ s) (inl k) = absurd (k refl)
derived_fits [] (c ∷ s) (inr (inl e)) = cc
derived_fits [] (c ∷ s) (inr (inr o)) = o

derived_plain :
    (ato status : Text)
    → OneOf (derive_status ato status) status_values
    → (ato ≢ []) ⊎ NullOrOneOf status status_values
unfolding derive_status
derived_plain (c ∷ s) status h = inl (λ e. cc)
derived_plain [] [] h = inr (inl refl)
derived_plain [] (c ∷ s) h = inr (inr h)

module _ (u : Unicode) where
  partes_fit :
      (numero : Text) (ps : List Parte)
      → check_partes u numero ps ≡ none
      → All ParteFits (map (normalize_parte u) ps)
  unfolding check_partes normalize_parte
  partes_fit numero [] h = tt
  partes_fit numero (p ∷ ps) h = (
    (
      enum_ok-required u p.papel allowed_papeis (ground arith),
      enum_ok-optional u p.tipo_pessoa allowed_tipos (ground arith),
    ),
    partes_fit numero ps (ground arith),
  )

  module _ {Num : Type 0} where
    atos_fit :
        (as' : List (Ato Num)) → check_atos u as' ≡ none → All AtoFits (map (normalize_ato u) as')
    unfolding check_atos normalize_ato
    atos_fit [] h = tt
    atos_fit (a ∷ as') h = (
      (
        enum_ok-required u a.kind allowed_kinds (ground arith),
        date_fits u a.date,
        partes_fit a.numero a.partes (ground arith),
      ),
      atos_fit as' (ground arith),
    )

    proprietarios_fit :
        (ps : List (Proprietario Num))
        → check_proprietarios u ps ≡ none
        → All ProprietarioFits (map (normalize_proprietario u) ps)
    unfolding check_proprietarios normalize_proprietario
    proprietarios_fit [] h = tt
    proprietarios_fit (p ∷ ps) h = (
      enum_ok-optional u p.tipo_pessoa allowed_tipos (ground arith),
      proprietarios_fit ps (ground arith),
    )

    -- The status of an ônus is empty, spelled as the database has it, or decided by a cancelling act.
    abbrev pub StatusIsPlain : Onus Num → Type 0
    StatusIsPlain o = (o.ato_cancelamento ≢ []) ⊎ NullOrOneOf o.status status_values

    every_lien_stored :
        (os : List (Onus Num)) → All StatusIsPlain os → All OnusFits (map (normalize_onus u) os)
    unfolding normalize_onus
    every_lien_stored [] h = tt
    every_lien_stored (o ∷ os) h =
        (derived_fits o.ato_cancelamento o.status h.0, every_lien_stored os h.1)

    every_lien_plain :
        (os : List (Onus Num)) → All OnusFits (map (normalize_onus u) os) → All StatusIsPlain os
    unfolding normalize_onus
    every_lien_plain [] h = tt
    every_lien_plain (o ∷ os) h =
        (derived_plain o.ato_cancelamento o.status h.0, every_lien_plain os h.1)

    -- An extraction that validateEnums accepts breaks no constraint of the schema once it is
    -- normalised, exactly if each of its ônus has a cancelling act or a status that is empty or
    -- spelled as in the schema.
    pub validate_enums-Fits :
        (m : ExtractedMatricula Num)
        → validate_enums u m ≡ none
        → Fits (normalize u m) ↔ All StatusIsPlain m.onus
    unfolding validate_enums normalize
    validate_enums-Fits m h = (
      λ f. every_lien_plain m.onus f.onus,
      λ plain. record {
        data_abertura = date_fits u m.data_abertura;
        atos = atos_fit m.atos (ground arith);
        proprietarios = proprietarios_fit m.proprietarios (ground arith);
        onus = every_lien_stored m.onus plain;
      },
    )
