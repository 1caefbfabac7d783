-- ===== src/Apps/Naming.antt =====
-- Where the package and the version of an upload come from.
use beetle_shield_backend.Prelude.{
  eq_iff, ◌∙◌, ◌≢◌, sym, ◌≡◌, refl, Bool, true, false, String, str_eq,
}
use beetle_shield_backend.Prelude.Int.{ℤ}
use beetle_shield_backend.Store.{
  Db, Result, ok, err, M, pure, fail, parse_package_info, from_result,
}
use beetle_shield_backend.Store.Hoare.{Keeps, Keeps-attempt, Keeps-bind, Keeps-call, keeps_rules}
use beetle_shield_backend.Store.Outcomes.{
  Leads, Leads-if, Leads-call, Leads-attempt, Leads-bind, Leads-fail, Leads-pure,
}
use beetle_shield_backend.Apps.Service.{
  ApkFile, PackageInfo, manual_or, named_by, version_or_empty, FileType, UploadInput, apk, aab,
  parse_apk, resolve_names,
}

module _ (open_apk : String → Result ApkFile) (md5_hex sha256_hex : String → String)
    (max_mb : ℤ) where
  -- The package is the one named by hand, or else the one that the file, an APK, has.
  abbrev pub IsPackage : UploadInput → FileType → String → Type 0
  IsPackage input kind p =
      (input.manual_package_name ≢ "" → p ≡ input.manual_package_name)
      × (input.manual_package_name ≡ ""
          → p ≢ ""
          → (kind ≡ apk)
            × ((file : ApkFile) × (open_apk input.content ≡ ok file) × (file.package_name ≡ p)))

  -- So is the version.
  abbrev pub IsVersion : UploadInput → FileType → String → Type 0
  IsVersion input kind v =
      (input.manual_version ≢ "" → v ≡ input.manual_version)
      × (input.manual_version ≡ ""
          → v ≢ ""
          → (kind ≡ apk)
            × ((file : ApkFile) × (open_apk input.content ≡ ok file) × (file.version_name ≡ ok v)))

  pub resolve_names-Keeps :
      (P : Db → Type 0) (input : UploadInput) (kind : FileType)
      → Keeps P (resolve_names open_apk md5_hex sha256_hex max_mb input kind)
  unfolding parse_apk
  resolve_names-Keeps P input apk =
      Keeps-bind _ _
        (Keeps-attempt _ (
          Keeps-bind _ _ (Keeps-bind _ _ (Keeps-call _ (λ w p. p)) (λ r. search keeps_rules))
            (λ file. search keeps_rules)))
        (λ r. search keeps_rules)
  resolve_names-Keeps P input aab = search keeps_rules

  -- What the reader says of the file.
  abbrev IsInfoOf : String → PackageInfo → Type 0
  IsInfoOf content info =
      (file : ApkFile) × (open_apk content ≡ ok file)
      × (info.package_name ≡ file.package_name)
      × (info.version_name ≡ version_or_empty file.version_name)

  parse_apk-Leads :
      (content : String)
      → Leads
          (λ _. Unit)
          (parse_apk open_apk md5_hex sha256_hex max_mb content)
          (λ info _. IsInfoOf content info)
  unfolding parse_apk from_result
  parse_apk-Leads content =
      Leads-bind _ (λ file _. open_apk content ≡ ok file) _ _ _
        (Leads-bind _ (λ r _. open_apk content ≡ r) _ _ _ (Leads-call _ _ _ (λ w p. refl))
          (λ r. record { at = λ v q file e. q ∙ e }))
        (λ file.
          Leads-if _ _ (str_eq file.package_name "") (fail parse_package_info) _
            (λ t. Leads-fail _ _ _) (λ f. Leads-pure _ _ _ (λ d q. (file, q, refl, refl))))

  by_hand-IsPackage :
      (input : UploadInput) (kind : FileType) → IsPackage input kind input.manual_package_name
  by_hand-IsPackage input kind = (λ ne. refl, λ z ne. absurd (ne z))

  by_hand-IsVersion :
      (input : UploadInput) (kind : FileType) → IsVersion input kind input.manual_version
  by_hand-IsVersion input kind = (λ ne. refl, λ z ne. absurd (ne z))

  manual_given : (m p : String) → m ≢ "" → manual_or m p ≡ m
  manual_given m p ne = split (str_eq m "") refl
    where
      split : (b : Bool) → str_eq m "" ≡ b → manual_or m p ≡ m
      split true e = absurd (ne ((eq_iff m "").0 e))
      split false e = rw e refl

  manual_absent : (m p : String) → m ≡ "" → manual_or m p ≡ p
  manual_absent m p z = rw ((eq_iff m "").1 z) refl

  version_lem : (r : Result String) (v : String) → v ≡ version_or_empty r → v ≢ "" → r ≡ ok v
  version_lem (ok x) v e ne = cc (e)
  version_lem (err x) v e ne = absurd (ne e)

  named_by-IsPackage :
      (input : UploadInput) (info : PackageInfo)
      → IsInfoOf input.content info
      → IsPackage input apk (manual_or input.manual_package_name info.package_name)
  named_by-IsPackage input info (file, opens, same, _) =
      (manual_given _ _, λ z ne. (refl, (file, opens, sym same ∙ sym (manual_absent _ _ z))))

  named_by-IsVersion :
      (input : UploadInput) (info : PackageInfo)
      → IsInfoOf input.content info
      → IsVersion input apk (manual_or input.manual_version info.version_name)
  named_by-IsVersion input info (file, opens, _, same) = (
    manual_given _ _,
    λ z ne. (refl, (file, opens, version_lem file.version_name _ (manual_absent _ _ z ∙ same) ne)),
  )

  pub resolve_names-Leads :
      (input : UploadInput) (kind : FileType)
      → Leads
          (λ _. Unit)
          (resolve_names open_apk md5_hex sha256_hex max_mb input kind)
          (λ names _. IsPackage input kind names.0 × IsVersion input kind names.1)
  resolve_names-Leads input aab =
      Leads-pure _ _ _ (λ d q. (by_hand-IsPackage input aab, by_hand-IsVersion input aab))
  resolve_names-Leads input apk =
      Leads-bind _ (λ r _. (info : PackageInfo) → r ≡ ok info → IsInfoOf input.content info) _ _ _
        (Leads-attempt _ _ _ (parse_apk-Leads input.content)) after
    where
      after :
          (r : Result PackageInfo)
          → Leads
              (λ _. (info : PackageInfo) → r ≡ ok info → IsInfoOf input.content info)
              (pure (named_by input r))
              (λ names _. IsPackage input apk names.0 × IsVersion input apk names.1)
      after (ok info) = Leads-pure _ _ _ (λ d q. (
        named_by-IsPackage input info (q info refl),
        named_by-IsVersion input info (q info refl),
      ))
      after (err e) =
          Leads-pure _ _ _ (λ d q. (by_hand-IsPackage input apk, by_hand-IsVersion input apk))

  pub both-Leads :
      {A : Type 0} (P : Db → Type 0) (F : A → Type 0) (m : M A)
      → Keeps P m
      → Leads (λ _. Unit) m (λ a _. F a)
      → Leads P m (λ a d. P d × F a)
  both-Leads P F m k h = record { at = λ w p a e. (k.at w p, h.at w tt a e) }
