-- ===== src/Aggregate/Stored.antt =====
-- What a client reads of an extraction that was stored, said without tables.
use tax_deeds.Aggregate.{Postgres}
use tax_deeds.Queries.{order_by}
use tax_deeds.Text.{same, Text}
use tax_deeds.Dto.{Onus, Proprietario, ExtractedMatricula, Ato}
use tax_deeds.Base.{any, ◌≤◌, ◌≡◌, ◌⊎◌, List, [], map, if◌then◌else◌, All}
use tax_deeds.Dates.{iso, IsDate, format_date, Date}

-- A date as normalizeDate leaves it, from the year 1: Postgres has no year 0.
abbrev pub IsDated : Text → Type 0
IsDated s = (s ≡ []) ⊎ ((d : Date) × IsDate d × (1 ≤ d.year) × (s ≡ format_date iso d))

module _ {Num : Type 0} where
  -- The dates of an extraction are normalised.
  pub record AllDated (m : ExtractedMatricula Num) : Type 0 where
    pub opened : IsDated m.data_abertura
    pub acts : All (λ a. IsDated a.date) m.atos

  -- A reference to an ato survives if there is an ato of this number.
  abbrev pub listed : List (Ato Num) → Text → Text
  listed atos numero = if any (λ a. same a.numero numero) atos then numero else []

  abbrev pub listed_owner : List (Ato Num) → Proprietario Num → Proprietario Num
  listed_owner atos p = record p { ato_aquisicao = listed atos p.ato_aquisicao }

  abbrev pub listed_lien : List (Ato Num) → Onus Num → Onus Num
  listed_lien atos o = record o {
    ato_constituicao = listed atos o.ato_constituicao;
    ato_cancelamento = listed atos o.ato_cancelamento;
  }

  -- The atos and their partes as they are, the proprietários by name and the ônus by type.
  unfoldable pub stored : Postgres → ExtractedMatricula Num → ExtractedMatricula Num
  unfolding order_by
  stored db m = record m {
    proprietarios =
        order_by (λ p q. db.collate p.nome q.nome) (map (listed_owner m.atos) m.proprietarios);
    onus = order_by (λ o p. db.collate o.tipo p.tipo) (map (listed_lien m.atos) m.onus);
  }
