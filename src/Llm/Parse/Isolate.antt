-- ===== src/Llm/Parse/Isolate.antt =====
-- parseExtraction: prose around the object does not matter, and what is accepted is checked.
use tax_deeds.Llm.Enums.{validate_enums}
use tax_deeds.Dto.{ExtractedMatricula}
use tax_deeds.Failure.{err, ◌>>=◌, ok, Result}
use tax_deeds.Text.{Unicode, Text}
use tax_deeds.Llm.Parse.{
  parse_object, checked, parse_extraction, slice, drop, last_index_of, index_of, take, isolate,
}
use mathlib.Core.List.{append-nil, append_assoc}
use tax_deeds.Base.{
  ℕ, ◌+◌, ◌-◌, ◌<◌, ◌≡◌, ◌≢◌, refl, sym, ap, ◌∙◌, Option, none, some, [], ◌∷◌, ◌++◌, arith, All,
  length,
}

-- No character of the text is `c`.
abbrev pub Without : ℕ → Text → Type 0
Without c s = All (λ d. c ≢ d) s

index_of-append :
    (c : ℕ) (pre t : Text) → Without c pre → index_of c (pre ++ c ∷ t) ≡ some (length pre)
unfolding index_of
index_of-append c [] t h = ground arith
index_of-append c (d ∷ pre) t h = ground (arith, index_of-append c pre t h.1)

last_index_of-none : (c : ℕ) (s : Text) → Without c s → last_index_of c s ≡ none
unfolding last_index_of
last_index_of-none c [] h = refl
last_index_of-none c (d ∷ s) h = ground (arith, last_index_of-none c s h.1)

last_index_of-append :
    (c : ℕ) (s post : Text) → Without c post → last_index_of c (s ++ c ∷ post) ≡ some (length s)
unfolding last_index_of
last_index_of-append c [] post h = rw (last_index_of-none c post h, last_index_of) (ground arith)
last_index_of-append c (d ∷ s) post h = ground (arith, last_index_of-append c s post h)

drop-length : (s t : Text) → drop (length s) (s ++ t) ≡ t
unfolding drop
drop-length [] t = refl
drop-length (c ∷ s) t = drop-length s t

take-length : (s t : Text) → take (length s) (s ++ t) ≡ s
unfolding take
take-length [] t = refl
take-length (c ∷ s) t = rw (take-length s t)

length-append : (s t : Text) → length (s ++ t) ≡ length s + length t
length-append [] t = omega arith
length-append (c ∷ s) t = omega (arith, length-append s t)

-- A JSON object as it is written: a brace, its members, a brace.
abbrev pub object : Text → Text
object body = b'{' ∷ body ++ b'}' ∷ []

-- The first brace that opens stands before the last that closes, and the text between is the object.
isolate_at :
    (raw : Text) (from to : ℕ)
    → index_of b'{' raw ≡ some from
    → last_index_of b'}' raw ≡ some to
    → from < to
    → isolate raw ≡ some (slice from (to + 1) raw)
unfolding isolate
isolate_at raw from to p q h = ground arith

raw_split :
    (pre body post : Text) → pre ++ (object body ++ post) ≡ (pre ++ b'{' ∷ body) ++ b'}' ∷ post
raw_split pre body post = simp append_assoc

object_span :
    (pre body : Text) → length (pre ++ b'{' ∷ body) + 1 - length pre ≡ length (object body)
object_span pre body =
    omega (arith, length-append pre (b'{' ∷ body), length-append body (b'}' ∷ []))

-- Prose that opens no brace before an object, and prose that closes none behind it, do not change
-- what is isolated: the object.
pub isolate-object :
    (pre body post : Text)
    → Without b'{' pre
    → Without b'}' post
    → isolate (pre ++ (object body ++ post)) ≡ some (object body)
isolate-object pre body post hpre hpost =
    let raw : Text = pre ++ (object body ++ post) in
    let last : last_index_of b'}' raw ≡ some (length (pre ++ b'{' ∷ body)) =
      rw (raw_split pre body post) (last_index_of-append b'}' (pre ++ b'{' ∷ body) post hpost) in
    let room : length pre < length (pre ++ b'{' ∷ body) =
      omega (arith, length-append pre (b'{' ∷ body)) in
    isolate_at raw (length pre) _ (index_of-append b'{' pre _ hpre) last room
    ∙ ap some (
        rw (drop-length pre (object body ++ post), object_span pre body)
          (take-length (object body) post))

isolate-object_bare : (body : Text) → isolate (object body) ≡ some (object body)
isolate-object_bare body = rw append-nil at (isolate-object [] body [] tt tt)

module _ {Num : Type 0} (u : Unicode) (quote : Text → Text) where
  some_parsed :
      (decode : Text → Result (ExtractedMatricula Num)) (o : Option Text)
      (m : ExtractedMatricula Num)
      → parse_object u quote decode o ≡ ok m
      → (object' : Text) × (o ≡ some object') × ((decode object' >>= checked u quote) ≡ ok m)
  unfolding parse_object
  some_parsed decode none m h = cc
  some_parsed decode (some object') m h = (object', refl, h)

  ok_checked :
      (r : Result (ExtractedMatricula Num)) (m : ExtractedMatricula Num)
      → (r >>= checked u quote) ≡ ok m
      → (r ≡ ok m) × (m.numero ≢ []) × (validate_enums u m ≡ none)
  unfolding checked
  ok_checked (err e) m h = cc
  ok_checked (ok d) m h =
      let e : d ≡ m = ground arith in
      (ap ok e, ground arith, ap (validate_enums u) (sym e) ∙ ground arith)

  module _ (decode : Text → Result (ExtractedMatricula Num)) where
    -- Code fences and prose without braces round a JSON object change nothing: the extraction, or the
    -- error, is that of the bare object.
    pub parse_extraction-object :
        (pre body post : Text)
        → Without b'{' pre
        → Without b'}' post
        → parse_extraction u quote decode (pre ++ (object body ++ post))
          ≡ parse_extraction u quote decode (object body)
    unfolding parse_extraction
    parse_extraction-object pre body post hpre hpost =
        ap (parse_object u quote decode)
          (isolate-object pre body post hpre hpost ∙ sym (isolate-object_bare body))

    -- What is accepted was decoded from the isolated object, has a number and only values of the
    -- vocabularies.
    pub parse_extraction_sound :
        (raw : Text) (m : ExtractedMatricula Num)
        → parse_extraction u quote decode raw ≡ ok m
        → (object' : Text) × (isolate raw ≡ some object')
          × (decode object' ≡ ok m)
          × (m.numero ≢ [])
          × (validate_enums u m ≡ none)
    unfolding parse_extraction checked
    parse_extraction_sound raw m h =
        let (object', isolated, accepted) = some_parsed decode (isolate raw) m h in
        let (decoded, numbered, valid) = ok_checked (decode object') m accepted in
        (object', isolated, decoded, numbered, valid)
