-- ===== src/Engine/Paths.antt =====
-- NormalizeVMPRules and SignedTestArtifactPath of internal/service/hardening_command.go, with
-- what they use of `strings` and `path/filepath`.
use Prim.Native.Char.{code}
use Prim.Native.String.{◌++◌}
use beetle_shield_backend.Prelude.{
  ℕ, ◌≡◌, refl, Bool, true, ◌&&◌, ◌||◌, String, ◌==◌, leb, str_eq, if◌then◌else◌,
}

-- `unicode.IsSpace`
unfoldable pub is_space : ℕ → Bool
is_space c =
    (leb 9 c && leb c 13)
    || c == 32
    || c == 0x85
    || c == 0xa0
    || c == 0x1680
    || (leb 0x2000 c && leb c 0x200a)
    || c == 0x2028
    || c == 0x2029
    || c == 0x202f
    || c == 0x205f
    || c == 0x3000

unfoldable pub trim_left : String → String
trim_left String.[] = String.[]
trim_left (String.◌∷◌ c s) = if is_space (code c) then trim_left s else String.◌∷◌ c s

-- A white character is dropped if nothing is left behind it.
abbrev pub drop_last : Bool → String → String → String
drop_last true String.[] t = String.[]
drop_last _ s t = t

unfoldable pub trim_right : String → String
trim_right String.[] = String.[]
trim_right (String.◌∷◌ c s) =
    let rest = trim_right s in drop_last (is_space (code c)) rest (String.◌∷◌ c rest)

-- `strings.TrimSpace`
unfoldable pub trim_space : String → String
trim_space s = trim_right (trim_left s)

unfoldable pub normalize_vmp_rules : String → String → String
normalize_vmp_rules input fallback =
    let trimmed = trim_space input in if str_eq trimmed "" then fallback else trimmed

-- The last dot of the last path element starts the extension: `rest` is what stands behind the
-- place reached, `found` the extension if nothing more is found.
abbrev pub ext_from : String → String → String
ext_from found String.[] = found
ext_from found (String.◌∷◌ c s) =
    ext_from (if code c == b'/' then "" else if code c == b'.' then String.◌∷◌ c s else found) s

-- `filepath.Ext`
unfoldable pub ext : String → String
ext path = ext_from "" path

-- `strings.TrimSuffix`
unfoldable pub trim_suffix : String → String → String
trim_suffix String.[] suffix = String.[]
trim_suffix (String.◌∷◌ c s) suffix =
    if str_eq (String.◌∷◌ c s) suffix then "" else String.◌∷◌ c (trim_suffix s suffix)

unfoldable pub signed_test_artifact_path : String → String
signed_test_artifact_path output_path =
    let e = ext output_path in
    if str_eq e "" then output_path ++ "_signed" else (trim_suffix output_path e ++ "_signed") ++ e

normalize_blank : normalize_vmp_rules " \t" "all" ≡ "all"
unfolding normalize_vmp_rules trim_space trim_left trim_right is_space
normalize_blank = refl

normalize_trims : normalize_vmp_rules " a b " "all" ≡ "a b"
unfolding normalize_vmp_rules trim_space trim_left trim_right is_space
normalize_trims = refl

signed_apk : signed_test_artifact_path "/w/T.1/output.apk" ≡ "/w/T.1/output_signed.apk"
unfolding signed_test_artifact_path ext trim_suffix
signed_apk = refl

signed_bare : signed_test_artifact_path "/w/T.1/output" ≡ "/w/T.1/output_signed"
unfolding signed_test_artifact_path ext trim_suffix
signed_bare = refl
