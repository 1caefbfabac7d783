-- ===== src/Worker/ObjectKey.antt =====
-- artifactObjectKey and sanitizeObjectKeySegment of internal/worker/hardening_worker.go.
use Prim.Native.Char.{Char, code}
use Prim.Native.String.{◌++◌ as append}
use beetle_shield_backend.Prelude.{
  ℕ, ◌≡◌, refl, true, false, ◌&&◌, String, ◌==◌, str_eq, if◌then◌else◌,
}

-- `strings.ReplaceAll`, of one character
unfoldable pub replace_char : ℕ → Char → String → String
replace_char old new String.[] = String.[]
replace_char old new (String.◌∷◌ c s) =
    String.◌∷◌ (if code c == old then new else c) (replace_char old new s)

-- `strings.ReplaceAll(s, "..", "_")`: from the left, without overlap
unfoldable pub replace_dots : String → String
replace_dots String.[] = String.[]
replace_dots (String.◌∷◌ c String.[]) = String.◌∷◌ c String.[]
replace_dots (String.◌∷◌ c (String.◌∷◌ d s)) = elim (code c == b'.' && code d == b'.') [
  | true ↦ String.◌∷◌ "_" (replace_dots s)
  | false ↦ String.◌∷◌ c (replace_dots (String.◌∷◌ d s))
]

unfoldable pub sanitize_object_key_segment : String → String
unfolding replace_char replace_dots
sanitize_object_key_segment s =
    let clean = replace_dots (replace_char 0x5c "_" (replace_char b'/' "_" s)) in
    if str_eq clean "" then "_" else clean

unfoldable pub artifact_object_key : String → String → String → String → String
unfolding sanitize_object_key_segment
artifact_object_key package_name task_no kind ext =
    append (sanitize_object_key_segment package_name)
      (append "/hardening/" (append task_no (append "/" (append kind ext))))

sanitize_traversal : sanitize_object_key_segment "../../etc" ≡ "____etc"
unfolding sanitize_object_key_segment
sanitize_traversal = refl
