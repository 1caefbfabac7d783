-- ===== src/Apps/Uploads.antt =====
-- What a successful upload has checked and stored.
use Prim.Native.String.{◌++◌ as append}
use beetle_shield_backend.Prelude.{
  eq_iff, if◌then◌else◌, ◌≢◌, ◌≡◌, refl, Bool, true, false, not, ◌||◌, String, Option, none, some,
  List, [], ◌∷◌, ◌++◌, str_eq, arith,
}
use beetle_shield_backend.Prelude.Int.{ℤ, ltb_bound, times64}
use beetle_shield_backend.Model.{App, AppStatus}
use beetle_shield_backend.Store.{Db, World, Result, ok, err}
use beetle_shield_backend.Store.Hoare.{Keeps-call, Keeps-map_error, keeps_rules}
use beetle_shield_backend.Store.Outcomes.{
  Leads, Leads-any, Leads-attempt, Leads-bind, Leads-fail, Leads-guard, Leads-insert_row,
  Leads-keeps, Leads-pure,
}
use beetle_shield_backend.Audit.Deferred.{deferred_audit-Leads}
use beetle_shield_backend.Engine.{ext, trim_suffix}
use beetle_shield_backend.Worker.{put_object}
use beetle_shield_backend.Apps.Repository.{create_app_row}
use beetle_shield_backend.Apps.Naming.{
  IsPackage, IsVersion, both-Leads, resolve_names-Keeps, resolve_names-Leads,
}
use beetle_shield_backend.Apps.Service.{
  ApkFile, extension, lower_is, text_take, FileType, UploadInput, apk, aab, file_type,
  saved_or_removed, store_upload, supported, too_large, upload, upload_key,
}

module _ (open_apk : String → Result ApkFile) (md5_hex sha256_hex : String → String)
    (max_mb : ℤ) where
  -- The file has a kind that is allowed and a size within the limit, the package and the version
  -- are known, the row says what was uploaded, and is all that the table of the apps gained.
  pub record IsUpload (apps : List App) (input : UploadInput) (app : App) (stored : List App)
      : Type 0 where
    pub kind : FileType
    pub allowed : lower_is (ext input.filename) (extension kind) ≡ true
    pub in_limit : ltb_bound (times64 (times64 max_mb 1024) 1024) input.size ≡ false
    pub package_known : app.package_name ≢ ""
    pub version_known : app.version ≢ ""
    pub package_from : IsPackage open_apk md5_hex sha256_hex max_mb input kind app.package_name
    pub version_from : IsVersion open_apk md5_hex sha256_hex max_mb input kind app.version
    pub name : app.name ≡ trim_suffix input.filename (extension kind)
    pub tag : app.tag ≡ input.tag
    pub status : app.status ≡ AppStatus.unprotected
    pub risk_level : app.risk_level ≡ none
    pub file_size : app.file_size ≡ input.size
    pub md5 : app.md5 ≡ md5_hex input.content
    pub sha256 : app.sha256 ≡ sha256_hex input.content
    pub object_key :
        app.object_key
        ≡ append app.package_name (
            append "/"
              (append (text_take 12 (sha256_hex input.content)) (append "/" input.filename)))
    pub uploaded_by : app.uploaded_by ≡ input.uploaded_by
    pub added : stored ≡ apps ++ (app ∷ [])

  abbrev pub IsUploaded : List App → UploadInput → App → Db → Type 0
  IsUploaded apps input app d = IsUpload apps input app d.apps

  kind_allowed :
      (filename : String) (kind : FileType)
      → file_type filename ≡ some kind
      → lower_is (ext filename) (extension kind) ≡ true
  kind_allowed filename kind e =
      pick (lower_is (ext filename) ".apk") (lower_is (ext filename) ".aab") refl refl e
    where
      same :
          {x y : FileType}
          → some x ≡ some y
          → lower_is (ext filename) (extension x) ≡ true
          → lower_is (ext filename) (extension y) ≡ true
      same q h = cc (q, h)

      pick :
          (a b : Bool)
          → lower_is (ext filename) ".apk" ≡ a
          → lower_is (ext filename) ".aab" ≡ b
          → (if a then some apk else if b then some aab else none) ≡ some kind
          → lower_is (ext filename) (extension kind) ≡ true
      pick true b p q h = same h p
      pick false true p q h = same h q
      pick false false p q h = cc (h)

  abbrev Same : List App → Db → Type 0
  Same apps d = d.apps ≡ apps

  abbrev IsChecked : UploadInput → FileType → Type 0
  IsChecked input kind =
      (file_type input.filename ≡ some kind)
      × (too_large open_apk md5_hex sha256_hex max_mb input.size ≡ false)

  store_upload-Leads :
      (apps : List App) (input : UploadInput) (kind : FileType) (names : String × String)
      → IsChecked input kind
      → IsPackage open_apk md5_hex sha256_hex max_mb input kind names.0
      → IsVersion open_apk md5_hex sha256_hex max_mb input kind names.1
      → Leads
          (Same apps)
          (store_upload open_apk md5_hex sha256_hex max_mb input kind names)
          (IsUploaded apps input)
  unfolding create_app_row put_object
  store_upload-Leads apps input kind (package_name, version) checked packaged versioned_by =
      Leads-bind _ _ _ _ _ (Leads-guard _ _ _) (λ _.
        Leads-bind _ _ _ _ _ (Leads-keeps _ _ (search keeps_rules)) (λ _.
          Leads-bind _ _ _ _ _ (Leads-keeps _ _ (Keeps-map_error _ _ (Keeps-call _ (λ w p. p))))
            (λ _.
              Leads-bind _ _ _ _ _
                (Leads-attempt _ _ _ (
                  Leads-insert_row _ (IsUploaded apps input) _ (λ id now d p. record {
                    kind = kind;
                    allowed = kind_allowed input.filename kind checked.0;
                    in_limit = checked.1;
                    package_known =
                        not_empty (named (str_eq package_name "") (str_eq version "") p.1);
                    version_known =
                        not_empty (versioned (str_eq package_name "") (str_eq version "") p.1);
                    package_from = packaged;
                    version_from = versioned_by;
                    name = refl;
                    tag = refl;
                    status = refl;
                    risk_level = refl;
                    file_size = refl;
                    md5 = refl;
                    sha256 = refl;
                    object_key = refl;
                    uploaded_by = refl;
                    added = rw p.0 refl;
                  })))
                (saved (upload_key open_apk md5_hex sha256_hex max_mb input package_name)))))
    where
      not_empty : {x : String} → str_eq x "" ≡ false → x ≢ ""
      not_empty {x} f z = cc ((eq_iff x "").1 z, f)

      named : (a b : Bool) → not (a || b) ≡ true → a ≡ false
      named a b h = ground arith

      versioned : (a b : Bool) → not (a || b) ≡ true → b ≡ false
      versioned a b h = ground arith

      saved :
          (key : String) (r : Result App)
          → Leads
              (λ d. (a : App) → r ≡ ok a → IsUploaded apps input a d)
              (saved_or_removed open_apk md5_hex sha256_hex max_mb key r)
              (IsUploaded apps input)
      saved key (ok a) = Leads-pure _ _ _ (λ d p. p a refl)
      saved key (err e) = Leads-bind _ (λ _ _. Unit) _ _ _ (Leads-any _ _) (λ _. Leads-fail _ _ _)

  supported-Leads :
      (P : Db → Type 0) (o : Option FileType)
      → Leads P (supported o) (λ kind d. P d × (o ≡ some kind))
  supported-Leads P (some kind) = Leads-pure _ _ _ (λ d p. (p, refl))
  supported-Leads P none = Leads-fail _ _ _

  upload-Leads :
      (apps : List App) (input : UploadInput)
      → Leads (Same apps) (upload open_apk md5_hex sha256_hex max_mb input) (IsUploaded apps input)
  unfolding upload
  upload-Leads apps input =
      deferred_audit-Leads _ _ (λ a d ls q. q) _ _
        (Leads-bind _ _ _ _ _ (supported-Leads _ _) (λ kind.
          Leads-bind _ _ _ _ _ (Leads-guard _ _ _) (λ _.
            Leads-bind _ _ _ _ _ (Leads-keeps _ _ (search keeps_rules)) (λ _.
              Leads-bind _ _ _ _ _ (Leads-keeps _ _ (search keeps_rules)) (λ _.
                Leads-bind _ _ _ _ _ (Leads-keeps _ _ (search keeps_rules)) (λ _.
                  Leads-bind _ _ _ _ _
                    (both-Leads open_apk md5_hex sha256_hex max_mb _ _ _
                      (resolve_names-Keeps open_apk md5_hex sha256_hex max_mb _ input kind)
                      (resolve_names-Leads open_apk md5_hex sha256_hex max_mb input kind))
                    (λ names. record {
                      at = λ w p.
                          (store_upload-Leads apps input kind names (p.0.0.1, fits _ p.0.1) p.1.0
                              p.1.1).at
                            w p.0.0.0;
                    })))))))
    where
      fits : (b : Bool) → not b ≡ true → b ≡ false
      fits b h = ground arith

  -- If an upload succeeds, the name of the file ends in .apk or .aab, in whatever case, its size
  -- is within the limit, and the table of the apps has gained one row and nothing else. Its
  -- package and its version are not empty, and are those given by hand, or else those that the
  -- reader finds in the file, an APK; its size, digests, tag, uploader and object key are those of
  -- the upload, and it is unprotected.
  pub upload_lem :
      (input : UploadInput) (w : World) (app : App)
      → (upload open_apk md5_hex sha256_hex max_mb input w).0 ≡ ok app
      → IsUploaded w.db.apps input app (upload open_apk md5_hex sha256_hex max_mb input w).1.db
  upload_lem input w app e = (upload-Leads w.db.apps input).at w refl app e
