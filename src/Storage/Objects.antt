-- ===== src/Storage/Objects.antt =====
-- What an upload leaves in the bucket.
use tax_deeds.Storage.{slash, ObjectStore, Client, Source, upload, fetch, written, wrap_result}
use tax_deeds.Failure.{◌>>=◌, Failure, Result, ok, err}
use tax_deeds.Text.{codes, Text}
use tax_deeds.Base.{ℕ, ◌≡◌, ◌≢◌, ◌↔◌, refl, ap, ◌∙◌, Option, none, some, List, ◌++◌}

-- What the documentation of the library says: a write that Close completes is what the next readers
-- get, and no call touches another object.
pub record KeepsObjects (O : ObjectStore) : Type 0 where
  pub content : Text → Text → O.State → Option (List ℕ)
  pub content-close_writer :
      (b o ct : Text) (bytes : List ℕ) (s : O.State)
      → (O.close_writer b o ct bytes s).0 ≡ none
      → content b o (O.close_writer b o ct bytes s).1 ≡ some bytes
  pub content-close_writer_other :
      (b o ct p : Text) (bytes : List ℕ) (s : O.State)
      → p ≢ o
      → content b p (O.close_writer b o ct bytes s).1 ≡ content b p s
  pub content-read_all :
      (b o : Text) (s : O.State) (r : O.Reader) (bytes : List ℕ)
      → O.new_reader b o s ≡ ok r
      → O.read_all r ≡ ok bytes
      → content b o s ≡ some bytes

module _ (O : ObjectStore) (keeps : KeepsObjects O) where
  written_state :
      (object : Text) (f : Option Failure) (w : Option Failure × O.State)
      → (written O object f w).1 ≡ w.1
  written_state object none (closed, s) = refl
  written_state object (some e) (closed, s) = refl

  -- The copy went through, and so did Close.
  written-none :
      (object : Text) (f : Option Failure) (w : Option Failure × O.State)
      → ((written O object f w).0 ≡ none) ↔ ((f ≡ none) × (w.0 ≡ none))
  written-none object none (none, s) = (λ _. (refl, refl), λ _. refl)
  written-none object none (some e, s) = (λ p. absurd (cc p), λ (_, q). absurd (cc q))
  written-none object (some e) (closed, s) = (λ p. absurd (cc p), λ (q, _). absurd (cc q))

  pub upload_none :
      (c : Client) (object ct : Text) (r : Source) (s : O.State)
      → ((upload O c object ct r s).0 ≡ none)
        ↔ ((r.fault ≡ none) × ((O.close_writer c.bucket object ct r.bytes s).0 ≡ none))
  unfolding upload
  upload_none c object ct r s = written-none object r.fault _

  pub content-upload_other :
      (c : Client) (object ct p : Text) (r : Source) (s : O.State)
      → p ≢ object
      → keeps.content c.bucket p (upload O c object ct r s).1 ≡ keeps.content c.bucket p s
  unfolding upload
  content-upload_other c object ct p r s n =
      ap (keeps.content c.bucket p) (written_state object r.fault _)
      ∙ keeps.content-close_writer_other c.bucket object ct p r.bytes s n

  pub content-upload :
      (c : Client) (object ct : Text) (r : Source) (s : O.State)
      → (O.close_writer c.bucket object ct r.bytes s).0 ≡ none
      → keeps.content c.bucket object (upload O c object ct r s).1 ≡ some r.bytes
  unfolding upload
  content-upload c object ct r s closed =
      ap (keeps.content c.bucket object) (written_state object r.fault _)
      ∙ keeps.content-close_writer c.bucket object ct r.bytes s closed

  wrapped_ok :
      {A : Type 0} (what : Text) (m : Result A) {a : A} → wrap_result what m ≡ ok a → m ≡ ok a
  wrapped_ok what (ok a) p = p
  wrapped_ok what (err e) p = absurd (cc p)

  fetched :
      (b o : Text) (s : O.State) (m : Result O.Reader) {bytes : List ℕ}
      → O.new_reader b o s ≡ m
      → (wrap_result (codes "download " ++ slash b o) m >>= λ r.
          wrap_result (codes "download " ++ slash b o) (O.read_all r))
        ≡ ok bytes
      → keeps.content b o s ≡ some bytes
  fetched b o s (err e) m p = absurd (cc p)
  fetched b o s (ok r) m p = keeps.content-read_all b o s r _ m (wrapped_ok _ (O.read_all r) p)

  pub content-fetch :
      (b o : Text) (s : O.State) {bytes : List ℕ}
      → fetch O b o s ≡ ok bytes
      → keeps.content b o s ≡ some bytes
  unfolding fetch
  content-fetch b o s p = fetched b o s (O.new_reader b o s) refl p

  -- After an upload whose Close works, the object holds exactly what was copied, in place of what it
  -- held, also where the copy failed and the upload returns an error; the other objects are as they
  -- were; and it returns no error exactly if nothing failed in the copy.
  pub upload_outcome :
      (c : Client) (object ct : Text) (r : Source) (s : O.State)
      → (O.close_writer c.bucket object ct r.bytes s).0 ≡ none
      → (keeps.content c.bucket object (upload O c object ct r s).1 ≡ some r.bytes)
        × ((p : Text)
            → p ≢ object
            → keeps.content c.bucket p (upload O c object ct r s).1 ≡ keeps.content c.bucket p s)
        × (((upload O c object ct r s).0 ≡ none) ↔ (r.fault ≡ none))
  upload_outcome c object ct r s closed = (
    content-upload c object ct r s closed,
    λ p n. content-upload_other c object ct p r s n,
    (λ h. ((upload_none c object ct r s).0 h).0, λ h. (upload_none c object ct r s).1 (h, closed)),
  )
