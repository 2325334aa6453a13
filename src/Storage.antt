-- ===== src/Storage.antt =====
-- internal/clients/gcs: the client of the application's bucket, and the downloader of the OCR worker.
--
-- The library of the object storage is the parameter ObjectStore: its state, which every call may
-- change, and what its calls answer. Contexts are left out.
pub mod Objects
pub mod Images
pub mod Memory
mod Tests
use tax_deeds.Failure.{Failure, Result, ok, err, wrapped, ◌>>=◌}
use tax_deeds.Text.{codes, Text}
use tax_deeds.Base.{ℕ, Option, none, some, List, ◌++◌}

-- What Attrs answers on a bucket.
pub data BucketAttrs : Type 0 where
  attrs_found attrs_missing : BucketAttrs  -- `errors.Is(err, storage.ErrBucketNotExist)` on the second
  attrs_failed : Failure → BucketAttrs

pub record ObjectStore : Type 1 where
  pub State : Type 0
  pub Reader : Type 0
  pub attrs : Text → State → BucketAttrs
  pub create : Text → Text → State → Option Failure × State  -- of the bucket and the project
  -- Close of a writer of an object, of a bucket and with a content type, that was given the bytes
  pub close_writer : Text → Text → Text → List ℕ → State → Option Failure × State
  pub new_reader : Text → Text → State → Result Reader
  pub read_all : Reader → Result (List ℕ)

-- What io.Copy takes from a reader: the bytes that reach the writer, and the error that ends it.
pub record Source : Type 0 where
  pub bytes : List ℕ
  pub fault : Option Failure

-- Client
pub record Client : Type 0 where
  pub bucket : Text

abbrev pub wrap_fault : Text → Option Failure → Option Failure
wrap_fault what none = none
wrap_fault what (some e) = some (wrapped what e)

abbrev pub wrap_result : {A : Type 0} → Text → Result A → Result A
wrap_result what (ok a) = ok a
wrap_result what (err e) = err (wrapped what e)

abbrev pub slash : Text → Text → Text
slash bucket object = bucket ++ codes "/" ++ object

module _ (O : ObjectStore) where
  module _ (quote : Text → Text) (bucket : Text) where
    abbrev pub created : Option Failure × O.State → Result Client × O.State
    created (none, s) = (ok (record { bucket = bucket }), s)
    created (some e, s) = (err (wrapped (codes "create bucket " ++ quote bucket) e), s)

    abbrev pub with_attrs : BucketAttrs → O.State → Result Client × O.State
    with_attrs attrs_found s = (ok (record { bucket = bucket }), s)
    with_attrs attrs_missing s = created (O.create bucket (codes "local-dev") s)
    with_attrs (attrs_failed e) s =
        (err (wrapped (codes "bucket " ++ quote bucket ++ codes " attrs") e), s)

    -- New; the first argument is the error of storage.NewClient.
    unfoldable pub new_client : Option Failure → O.State → Result Client × O.State
    new_client (some e) s = (err (wrapped (codes "gcs client") e), s)
    new_client none s = with_attrs (O.attrs bucket s) s

  abbrev pub written : Text → Option Failure → Option Failure × O.State → Option Failure × O.State
  written object (some e) (closed, s) = (some (wrapped (codes "upload " ++ object) e), s)
  written object none (closed, s) = (wrap_fault (codes "upload " ++ object) closed, s)

  -- Upload: the writer is closed also where the copy failed.
  unfoldable pub upload : Client → Text → Text → Source → O.State → Option Failure × O.State
  upload c object content_type r s =
      written object r.fault (O.close_writer c.bucket object content_type r.bytes s)

  -- Client.Download
  unfoldable pub download : Client → Text → O.State → Result O.Reader
  download c object s = wrap_result (codes "download " ++ object) (O.new_reader c.bucket object s)

  -- Downloader.Download
  unfoldable pub fetch : Text → Text → O.State → Result (List ℕ)
  fetch bucket object s =
      wrap_result (codes "download " ++ slash bucket object) (O.new_reader bucket object s) >>= λ r.
      wrap_result (codes "download " ++ slash bucket object) (O.read_all r)

-- NewDownloader
unfoldable pub new_downloader : Option Failure → Option Failure
new_downloader fault = wrap_fault (codes "gcs client") fault
