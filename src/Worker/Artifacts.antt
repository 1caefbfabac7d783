-- ===== src/Worker/Artifacts.antt =====
-- uploadArtifacts, uploadOne and rollbackArtifacts of internal/worker/hardening_worker.go, and
-- the calls of the object store. A failed call of the store leaves it as it was.
use beetle_shield_backend.Prelude.{
  ℕ, String, List, [], ◌∷◌, ◌++◌, str_eq, delete_where, if◌then◌else◌,
}
use mathlib.Core.List.{reverse}
use beetle_shield_backend.Store.{
  joined, Result, ok, err, M, ◌>>=◌, ◌>>◌, pure, call, attempt, external_call,
}

pub record ArtifactInfo : Type 0 where
  pub path : String
  pub object_key : String
  pub size : ℕ
  pub sha256 : String

-- `service.ArtifactInfo{}`
abbrev pub no_artifact : ArtifactInfo
no_artifact = record { path = ""; object_key = ""; size = 0; sha256 = "" }

unfoldable pub put_object : String → M (Unit {0})
put_object key = call (λ w. (tt, record w { objects = key ∷ w.objects }))

-- Deleting an object that is not there is no error.
unfoldable pub delete_object : String → M (Unit {0})
delete_object key =
    call (λ w. (tt, record w { objects = delete_where (λ k. str_eq k key) w.objects }))

-- `os.Open`, then the upload
unfoldable pub upload_one : ArtifactInfo → M (Unit {0})
upload_one artifact = external_call >> put_object artifact.object_key

-- `errors.Join`
abbrev pub join_errors : Result (Unit {0}) → Result (Unit {0}) → Result (Unit {0})
join_errors (ok _) r = r
join_errors (err e) (ok _) = err e
join_errors (err e) (err f) = err (joined e f)

-- The keys uploaded so far, and the error that stopped the loop.

abbrev pub after_upload :
    List String
    → String
    → M (List String × Result (Unit {0}))
    → Result (Unit {0})
    → M (List String × Result (Unit {0}))
after_upload keys key rest (ok _) = rest
after_upload keys key rest (err e) = pure (keys, err e)

unfoldable pub upload_from : List String → List ArtifactInfo → M (List String × Result (Unit {0}))
upload_from keys [] = pure (keys, ok tt)
upload_from keys (artifact ∷ rest) =
    let skipped = upload_from keys rest in
    let uploaded = upload_from (keys ++ (artifact.object_key ∷ [])) rest in
    if str_eq artifact.path ""
    then skipped
    else (attempt (upload_one artifact) >>= after_upload keys artifact.object_key uploaded)

unfoldable pub upload_artifacts : List ArtifactInfo → M (List String × Result (Unit {0}))
unfolding upload_from
upload_artifacts artifacts = upload_from [] artifacts

-- Each key is deleted, also behind a deletion that failed.
unfoldable pub delete_objects : List String → Result (Unit {0}) → M (Result (Unit {0}))
delete_objects [] so_far = pure so_far
delete_objects (key ∷ rest) so_far =
    attempt (delete_object key) >>= λ r. delete_objects rest (join_errors so_far r)

unfoldable pub rollback_artifacts : List String → M (Result (Unit {0}))
unfolding delete_objects
rollback_artifacts keys = delete_objects (reverse keys) (ok tt)
