-- ===== src/Cdc/Connectors/Placeholders.antt =====
-- References to secrets in a connector's configuration.
use dockerize_and_ansible.Base.{
  String, ◌<>◌, ◌≡◌, refl, ◌∙◌, ap, true, false, some, arith, if◌then◌else◌, string_eq, nat_eq,
  Bool-cases, inl, inr,
}
use dockerize_and_ansible.Base.Dict
use dockerize_and_ansible.Base.Text.{same, is_nonempty, has_char, remove_prefix}
use dockerize_and_ansible.Cdc.Connectors.{
  Files, up_to, extract_file_and_key, resolve_placeholders, load_properties,
  default_properties_file, replaced,
}
use Prim.Native.Char.{Char}
use Prim.Native.String as Text
use Prim.Native.String.append
use text.Mathlib.TextPositions.{starts_with-append}

-- A text without a character and without an end of line.
abbrev pub Lacks : Char → String → Type 0
Lacks c s = (has_char c s ≡ false) × (has_char "\n" s ≡ false)

up_to-append :
    (c : Char) (s t : String)
    → same c c ≡ true
    → has_char c s ≡ false
    → has_char "\n" s ≡ false
    → up_to c (s <> Text.◌∷◌ c t) ≡ some (s, t)
unfolding up_to has_char nat_eq
up_to-append c Text.[] t self h k = rw (append.nil (Text.◌∷◌ c t)) (rw self)
up_to-append c (Text.◌∷◌ d s) t self h k = elim (Bool-cases (same d c)) [
  | inl e ↦ absurd (ground arith)
  | inr n ↦ elim (Bool-cases (same d "\n")) [
    | inl e ↦ absurd (ground arith)
    | inr m ↦
        let ih = up_to-append c s t self (ground arith) (ground arith) in
        rw (append.cons d s (Text.◌∷◌ c t)) (rw (n, m, ih))
  ]
]

remove_prefix-append : (p s : String) → remove_prefix p (p <> s) ≡ s
unfolding remove_prefix
remove_prefix-append Text.[] s = append.nil s
remove_prefix-append (Text.◌∷◌ c p) s = rw (append.cons c p s) (remove_prefix-append p s)

-- The form of a reference.
abbrev pub reference : (path key rest : String) → String
reference path key rest = "${file:" <> (path <> Text.◌∷◌ ":" (key <> Text.◌∷◌ "}" rest))

-- A reference is taken apart into its path and its key.
pub extract_file_and_key-reference :
    (path key rest : String)
    → Lacks ":" path
    → Lacks "}" key
    → extract_file_and_key (reference path key rest) ≡ some (path, key)
unfolding extract_file_and_key nat_eq
extract_file_and_key-reference path key rest p k = rw (
  starts_with-append "${file:" (path <> Text.◌∷◌ ":" (key <> Text.◌∷◌ "}" rest)),
  remove_prefix-append "${file:" (path <> Text.◌∷◌ ":" (key <> Text.◌∷◌ "}" rest)),
  up_to-append ":" path (key <> Text.◌∷◌ "}" rest) refl p.0 p.1,
  up_to-append "}" key rest refl k.0 k.1,
)

-- A value that refers to a key of a file, whatever follows the reference, is replaced by what the
-- properties of that file, or of the default file if there is no such file, have under that key, and
-- by a text that says it is missing if they have nothing; provided that path and key are not empty,
-- the path holds no colon, the key no closing brace, and neither an end of line.
pub resolve_placeholders-reference :
    (files : Files) (path key rest : String)
    → Lacks ":" path
    → Lacks "}" key
    → is_nonempty path ≡ true
    → is_nonempty key ≡ true
    → resolve_placeholders files (reference path key rest)
      ≡ Dict.get_or
          (load_properties files (if files.path_exists path then path else default_properties_file))
          key
          ("<MISSING: " <> key <> ">")
unfolding resolve_placeholders
resolve_placeholders-reference files path key rest p k some_path some_key =
    ap (replaced files (reference path key rest)) (extract_file_and_key-reference path key rest p k)
    ∙ rw (some_path, some_key)
