-- ===== src/Storage/Images.antt =====
-- The page images on their way: from the loop of process and uploadFile in
-- internal/services/ingest/ingest.go, through the bucket, to the downloads of cmd/ocr/worker.go.
use tax_deeds.Ingest.{Env, page_object, upload_pages}
use mathlib.Core.Path.{subst}
use mathlib.Core.List.{append_cancel_left, append_cancel_right}
use tax_deeds.Base.{
  sym, ap, length, ◌≤◌, ℕ, ◌+◌, ◌<◌, ◌≡◌, ◌≢◌, refl, ◌∙◌, Option, none, some, List, [], ◌∷◌, ◌++◌,
  arith,
}
use tax_deeds.Storage.Objects.{
  KeepsObjects, content-upload, content-upload_other, upload_none, content-fetch,
}
use tax_deeds.Storage.{ObjectStore, Client, Source, upload, fetch}
use tax_deeds.OcrClient.{PageRef, page_refs, job_request}
use tax_deeds.Failure.{◌>>=◌, Failure, Result, ok, err, wrapped}
use tax_deeds.Text.{codes, Text}

-- A file of a page: the error of os.Open, and what it holds.
pub record PageFile : Type 0 where
  pub open_fault : Option Failure
  pub source : Source

module _ (O : ObjectStore) (decimal decimal4 : ℕ → Text) (c : Client) (id : Text) where
  -- uploadFile
  abbrev pub upload_opened : Option Failure → Text → Source → O.State → Option Failure × O.State
  upload_opened (some e) object r s = (some e, s)
  upload_opened none object r s = upload O c object (codes "image/png") r s

  abbrev pub with_objects :
      ℕ → Option Failure → Result (List Text) × O.State → O.State → Result (List Text) × O.State
  with_objects n (some e) rest s = (err (wrapped (codes "upload page " ++ decimal n) e), s)
  with_objects n none (ok objects, s') s = (ok (page_object decimal4 id n ∷ objects), s')
  with_objects n none (err e, s') s = (err e, s')

  -- The loop over the page images, from the number `n` on.
  unfoldable pub store_pages : ℕ → List PageFile → O.State → Result (List Text) × O.State
  unfolding upload
  store_pages n [] s = (ok [], s)
  store_pages n (f ∷ fs) s =
      let (fault, s') = upload_opened f.open_fault (page_object decimal4 id n) f.source s in
      let rest = store_pages (n + 1) fs s' in with_objects n fault rest s'

  -- The uploads of the files at the paths have these outcomes, by the names of their objects.
  abbrev pub HasOutcomes :
      (Text → Option Failure) → ℕ → List PageFile → List Text → O.State → Type 0
  HasOutcomes outcome n [] [] s = Unit
  HasOutcomes outcome n [] (p ∷ ps) s = ⊥
  HasOutcomes outcome n (f ∷ fs) [] s = ⊥
  HasOutcomes outcome n (f ∷ fs) (p ∷ ps) s =
      let (fault, s') = upload_opened f.open_fault (page_object decimal4 id n) f.source s in
      (outcome (page_object decimal4 id n) ≡ fault) × HasOutcomes outcome (n + 1) fs ps s'

  -- The result of a turn, by the outcome of its upload and the result of the later turns.
  abbrev named : ℕ → Option Failure → Result (List Text) → Result (List Text)
  named n fault rest = elim fault [
    | some e ↦ err (wrapped (codes "upload page " ++ decimal n) e)
    | none ↦ rest >>= (λ objects. ok (page_object decimal4 id n ∷ objects))
  ]

  with_objects_result :
      (n : ℕ) (fault : Option Failure) (rest : Result (List Text) × O.State) (s : O.State)
      → (with_objects n fault rest s).0 ≡ named n fault rest.0
  with_objects_result n (some e) rest s = refl
  with_objects_result n none (ok objects, s') s = refl
  with_objects_result n none (err e, s') s = refl

  with_objects_agrees :
      (n : ℕ) (fault outcome : Option Failure) (rest : Result (List Text) × O.State) (s : O.State)
      (names : Result (List Text))
      → outcome ≡ fault
      → rest.0 ≡ names
      → (with_objects n fault rest s).0 ≡ named n outcome names
  with_objects_agrees n fault outcome rest s names a b =
      with_objects_result n fault rest s
      ∙ ap (λ x. named n x rest.0) (sym a)
      ∙ ap (named n outcome) b

  -- The loop on the bucket is that of process.
  store_pages-upload_pages :
      (max : ℕ) (env : Env) (fs : List PageFile) (paths : List Text) (n : ℕ) (s : O.State)
      → HasOutcomes env.upload_page n fs paths s
      → (store_pages n fs s).0 ≡ upload_pages decimal decimal4 max env id n paths
  unfolding store_pages upload_pages
  store_pages-upload_pages max env [] [] n s h = refl
  store_pages-upload_pages max env [] (p ∷ ps) n s h = absurd h
  store_pages-upload_pages max env (f ∷ fs) [] n s h = absurd h
  store_pages-upload_pages max env (f ∷ fs) (p ∷ ps) n s (here', later') =
      with_objects_agrees n _ (env.upload_page (page_object decimal4 id n))
        (store_pages (n + 1) fs _) _ _ here'
        (store_pages-upload_pages max env fs ps (n + 1) _ later')

  -- Every image that can be downloaded for a page of the job is that of the file.
  abbrev pub Received : List PageFile → List PageRef → O.State → Type 0
  Received [] [] s = Unit
  Received [] (p ∷ ps) s = ⊥
  Received (f ∷ fs) [] s = ⊥
  Received (f ∷ fs) (p ∷ ps) s =
      ((png : List ℕ) → fetch O p.gcs_bucket p.gcs_object s ≡ ok png → png ≡ f.source.bytes)
      × Received fs ps s

  module _ (keeps : KeepsObjects O) (last : ℕ)
      (distinct : (m n : ℕ) → m ≤ last → n ≤ last → decimal4 m ≡ decimal4 n → m ≡ n) where
    -- Pages have objects of their own: what is before and behind the number is the same.
    page_object-injective :
        (m n : ℕ)
        → m ≤ last
        → n ≤ last
        → page_object decimal4 id m ≡ page_object decimal4 id n
        → m ≡ n
    page_object-injective m n a b e = distinct m n a b (
        append_cancel_left (codes "documents/" ++ id ++ codes "/pages/") _ _
          (append_cancel_right _ _ (codes ".png") e))

    with_objects_content :
        (p : Text) (n : ℕ) (fault : Option Failure) (rest : Result (List Text) × O.State)
        (s : O.State)
        → keeps.content c.bucket p rest.1 ≡ keeps.content c.bucket p s
        → keeps.content c.bucket p (with_objects n fault rest s).1 ≡ keeps.content c.bucket p s
    with_objects_content p n (some e) rest s h = refl
    with_objects_content p n none (ok objects, s') s h = h
    with_objects_content p n none (err e, s') s h = h

    upload_opened_other :
        (fault : Option Failure) (object p : Text) (r : Source) (s : O.State)
        → p ≢ object
        → keeps.content c.bucket p (upload_opened fault object r s).1 ≡ keeps.content c.bucket p s
    upload_opened_other (some e) object p r s n = refl
    upload_opened_other none object p r s n = content-upload_other O keeps c object _ p r s n

    store_pages-before :
        (fs : List PageFile) (m n : ℕ) (s : O.State)
        → m < n
        → n + length fs ≤ last + 1
        → keeps.content c.bucket (page_object decimal4 id m) (store_pages n fs s).1
          ≡ keeps.content c.bucket (page_object decimal4 id m) s
    unfolding store_pages
    store_pages-before [] m n s lt le = refl
    store_pages-before (f ∷ fs) m n s lt le =
        with_objects_content (page_object decimal4 id m) n _ (store_pages (n + 1) fs _) _
          (store_pages-before fs m (n + 1) _ (omega arith) (omega arith))
        ∙ upload_opened_other f.open_fault (page_object decimal4 id n) (page_object decimal4 id m)
            f.source s
            (λ e. absurd (omega (arith, page_object-injective m n (omega arith) (omega arith) e)))

    upload_opened_content :
        (fault : Option Failure) (object : Text) (r : Source) (s : O.State)
        → (upload_opened fault object r s).0 ≡ none
        → keeps.content c.bucket object (upload_opened fault object r s).1 ≡ some r.bytes
    upload_opened_content (some e) object r s p = absurd (cc p)
    upload_opened_content none object r s p =
        content-upload O keeps c object _ r s ((upload_none O keeps c object _ r s).0 p).1

    -- A turn of the loop, given what the later turns leave in the bucket.
    turn-Received :
        (f : PageFile) (fs : List PageFile) (n : ℕ) (fault : Option Failure)
        (rest : Result (List Text) × O.State) (s : O.State) {objects : List Text}
        → (fault ≡ none
            → keeps.content c.bucket (page_object decimal4 id n) s ≡ some f.source.bytes)
        → keeps.content c.bucket (page_object decimal4 id n) rest.1
          ≡ keeps.content c.bucket (page_object decimal4 id n) s
        → ((names : List Text)
            → rest.0 ≡ ok names
            → Received fs (page_refs (n + 1) c.bucket names) rest.1)
        → (with_objects n fault rest s).0 ≡ ok objects
        → Received (f ∷ fs) (page_refs n c.bucket objects) (with_objects n fault rest s).1
    unfolding page_refs
    turn-Received f fs n (some e) rest s stored kept later p = absurd (cc p)
    turn-Received f fs n none (err e, s') s stored kept later p = absurd (cc p)
    turn-Received f fs n none (ok names, s') s {objects} stored kept later p =
        let same_objects : page_object decimal4 id n ∷ names ≡ objects = cc p in
        subst (λ (o : List Text). Received (f ∷ fs) (page_refs n c.bucket o) s') same_objects
          (
            λ png got. cc (
              content-fetch O keeps c.bucket (page_object decimal4 id n) s' got,
              kept,
              stored refl,
            ),
            later names refl,
          )

    pages-Received :
        (fs : List PageFile) (n : ℕ) (s : O.State) (objects : List Text)
        → n + length fs ≤ last + 1
        → (store_pages n fs s).0 ≡ ok objects
        → Received fs (page_refs n c.bucket objects) (store_pages n fs s).1
    unfolding store_pages page_refs
    pages-Received [] n s [] le p = tt
    pages-Received [] n s (o ∷ os) le p = absurd (cc p)
    pages-Received (f ∷ fs) n s objects le p =
        turn-Received f fs n _ (store_pages (n + 1) fs _) _
          (upload_opened_content f.open_fault (page_object decimal4 id n) f.source s)
          (store_pages-before fs n (n + 1) _ (omega arith) (omega arith))
          (λ names more. pages-Received fs (n + 1) _ names (omega arith) more) p

    -- Where the pages of a document are at most `last` and their numbers have different texts: if the
    -- loop of process over the page images returns no error, with the outcomes that the object storage
    -- gives to its uploads, then the job made from its objects has a page for every file, in their
    -- order, and what the worker downloads for a page, if that works, is the whole content of its file.
    pub job_images :
        (max : ℕ) (env : Env) (fs : List PageFile) (paths : List Text) (s : O.State)
        {objects : List Text}
        → length fs ≤ last
        → HasOutcomes env.upload_page 1 fs paths s
        → upload_pages decimal decimal4 max env id 1 paths ≡ ok objects
        → Received fs (job_request id c.bucket objects).pages (store_pages 1 fs s).1
    unfolding page_refs
    job_images max env fs paths s short outcomes p =
        pages-Received fs 1 s _ (omega arith)
          (store_pages-upload_pages max env fs paths 1 s outcomes ∙ p)
