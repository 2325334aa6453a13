-- ===== src/OcrWorker/Pool/Texts.antt =====
-- What the goroutine of a page leaves in ocr_results.
use mathlib.Core.Path.{subst}
use tax_deeds.Text.Laws.{same_refl}
use tax_deeds.Store.{OcrRow}
use tax_deeds.OcrWorker.{
  got, broke, recognize_image, write_page, Io, image, IoError, page, PageIo, result_row, Recognized,
  Engine,
}
use tax_deeds.Text.{same, Text}
use tax_deeds.OcrClient.{upsert_page, overwrite, is_result, PageRef}
use tax_deeds.Base.{
  ◌∙◌, ◌==◌, sym, ==_iff, ==_refl, or_true, any, ℕ, ◌≡◌, refl, ◌⊎◌, inl, inr, Bool, true, false,
  ◌&&◌, ◌||◌, Option, none, some, List, [], ◌∷◌, ◌++◌, map, Bool-cases,
}

or_rest : (a b : Bool) → a ≡ false → (a || b) ≡ true → b ≡ true
or_rest true b e h = cc e
or_rest false b e h = h

and_left : (a b : Bool) → (a && b) ≡ true → a ≡ true
and_left true b h = refl
and_left false b h = cc h

and_right : (a b : Bool) → (a && b) ≡ true → b ≡ true
and_right true b h = h
and_right false b h = cc h

module _ {Num : Type 0} (decimal : ℕ → Text) (engine : Engine) (document : Text)
    (good : ℕ → Text → Bool) where
  -- A text of a page of the document, by this engine, that passes a test.
  abbrev pub is_text : ℕ → OcrRow Num → Bool
  is_text n r = is_result document n r && (same r.engine engine.name && good n r.text)

  abbrev pub HasText : List (OcrRow Num) → PageRef → Type 0
  HasText rows p = any (is_text p.page_number) rows ≡ true

  number_of : (n : ℕ) (r : OcrRow Num) → is_result document n r ≡ true → r.page_number ≡ n
  number_of n r h =
      (==_iff r.page_number n).0 (and_right (same r.document_id document) (r.page_number == n) h)

  overwrite_text :
      (p q : PageRef) (res : Recognized Num) (r : OcrRow Num)
      → good p.page_number res.text ≡ true
      → is_text q.page_number r ≡ true
      → is_text q.page_number (overwrite (result_row decimal engine document p res) r) ≡ true
  overwrite_text p q res r g h = elim (Bool-cases (is_result document p.page_number r)) [
    | inl e ↦
        let here = and_left (is_result document q.page_number r) _ h in
        let same_number = sym (number_of p.page_number r e) ∙ number_of q.page_number r here in
        let g' = subst (λ n. good n res.text ≡ true) same_number g in
        rw (e, here, same_refl engine.name, g') refl
    | inr e ↦ rw e h
  ]

  map-overwrite_text :
      (p q : PageRef) (res : Recognized Num) (rows : List (OcrRow Num))
      → good p.page_number res.text ≡ true
      → HasText rows q
      → HasText (map (overwrite (result_row decimal engine document p res)) rows) q
  map-overwrite_text p q res [] g h = h
  map-overwrite_text p q res (r ∷ rows) g h = elim (Bool-cases (is_text q.page_number r)) [
    | inl e ↦ rw (overwrite_text p q res r g e) refl
    | inr e ↦
        rw (map-overwrite_text p q res rows g (or_rest (is_text q.page_number r) _ e h)) (or_true _)
  ]

  map-overwrite_own :
      (p : PageRef) (res : Recognized Num) (rows : List (OcrRow Num))
      → good p.page_number res.text ≡ true
      → any (is_result document p.page_number) rows ≡ true
      → HasText (map (overwrite (result_row decimal engine document p res)) rows) p
  map-overwrite_own p res [] g h = cc h
  map-overwrite_own p res (r ∷ rows) g h = elim (Bool-cases (is_result document p.page_number r)) [
    | inl e ↦ rw (e, same_refl engine.name, e, g) refl
    | inr e ↦
        rw (map-overwrite_own p res rows g (or_rest (is_result document p.page_number r) _ e h))
          (or_true _)
  ]

  append_text :
      (p : PageRef) (new : OcrRow Num) (rows : List (OcrRow Num))
      → HasText rows p
      → HasText (rows ++ new ∷ []) p
  append_text p new [] h = cc h
  append_text p new (r ∷ rows) h = elim (Bool-cases (is_text p.page_number r)) [
    | inl e ↦ rw e refl
    | inr e ↦ rw (append_text p new rows (or_rest (is_text p.page_number r) _ e h)) (or_true _)
  ]

  append_own :
      (p : PageRef) (new : OcrRow Num) (rows : List (OcrRow Num))
      → is_text p.page_number new ≡ true
      → HasText (rows ++ new ∷ []) p
  append_own p new [] h = rw h refl
  append_own p new (r ∷ rows) h = rw (append_own p new rows h) (or_true _)

  -- A page that is written has its text, and the others keep theirs.
  upsert_page-HasText :
      (p q : PageRef) (res : Recognized Num) (rows : List (OcrRow Num))
      → good p.page_number res.text ≡ true
      → (q ≡ p) ⊎ HasText rows q
      → HasText (upsert_page (result_row decimal engine document p res) rows) q
  unfolding upsert_page
  upsert_page-HasText p q res rows g h =
      elim (Bool-cases (any (is_result document p.page_number) rows)) [
        | inl e ↦ rw e (elim h [
          | inl same_page ↦ rw same_page (map-overwrite_own p res rows g e)
          | inr text ↦ map-overwrite_text p q res rows g text
        ])
        | inr e ↦ rw e (elim h [
          | inl same_page ↦ rw same_page (
              append_own p _ rows rw
                (same_refl document, ==_refl p.page_number, same_refl engine.name, g) refl)
          | inr text ↦ append_text q _ rows text
        ])
      ]

  write_page-HasText :
      (p q : PageRef) (fault : Option IoError) (res : Io (Recognized Num))
      (rows : List (OcrRow Num))
      → ((r : Recognized Num) → res ≡ got r → good p.page_number r.text ≡ true)
      → (write_page decimal engine document p fault res rows).0 ≡ none
      → (q ≡ p) ⊎ HasText rows q
      → HasText (write_page decimal engine document p fault res rows).1 q
  write_page-HasText p q fault (broke e) rows g h k = cc h
  write_page-HasText p q (some e) (got res) rows g h k = cc h
  write_page-HasText p q none (got res) rows g h k = upsert_page-HasText p q res rows (g res refl) k

  recognize_image-HasText :
      (io : PageIo Num) (p q : PageRef) (png : Io (Option (List ℕ))) (rows : List (OcrRow Num))
      → ((image' : Option (List ℕ)) (r : Recognized Num)
          → io.recognize p.page_number image' ≡ got r
          → good p.page_number r.text ≡ true)
      → (recognize_image decimal engine document io p png rows).0 ≡ none
      → (q ≡ p) ⊎ HasText rows q
      → HasText (recognize_image decimal engine document io p png rows).1 q
  recognize_image-HasText io p q (broke e) rows g h k = cc h
  recognize_image-HasText io p q (got png) rows g h k =
      write_page-HasText p q io.upsert_fault (io.recognize p.page_number png) rows (g png) h k

  -- Where the goroutine of a page returns no error, the page has its text.
  pub page-HasText :
      (io : PageIo Num) (p q : PageRef) (rows : List (OcrRow Num))
      → ((image' : Option (List ℕ)) (r : Recognized Num)
          → io.recognize p.page_number image' ≡ got r
          → good p.page_number r.text ≡ true)
      → (page decimal engine document io p rows).0 ≡ none
      → (q ≡ p) ⊎ HasText rows q
      → HasText (page decimal engine document io p rows).1 q
  unfolding page
  page-HasText io p q rows g h k =
      recognize_image-HasText io p q (image decimal engine document io p) rows g h k

  -- Every answer of the engine to a page passes the test.
  abbrev pub AnswersPass : (PageRef → PageIo Num) → Type 0
  AnswersPass calls =
      (p : PageRef) (png : Option (List ℕ)) (r : Recognized Num)
      → (calls p).recognize p.page_number png ≡ got r
      → good p.page_number r.text ≡ true
