-- ===== src/Sanitization/Parse/Reading.antt =====
-- The lines of a file of secrets, and what they say of a prefix and a host name.
use dockerize_and_ansible.Base.{
  String, ◌≡◌, refl, ◌∙◌, sym, ap, inl, inr, Bool, not, ◌&&◌, ◌||◌, Option, none, some, List, [],
  ◌∷◌, ◌==◌, if◌then◌else◌, string_eq, nat_eq, arith,
}
use dockerize_and_ansible.Base.Effect.{Outcome, return, raise, Outcome-cases}
use dockerize_and_ansible.Sanitization.Parse.{
  Line, parse_line, Parsed, note, note_some, parse_lines,
}

-- The key of the last line for a field of a prefix, if any, or else `found`.
unfoldable pub last_key :
    (prefix field : String) → List Line → (found : Option String) → Option String
last_key prefix field [] found = found
last_key prefix field (l ∷ ls) found =
    last_key prefix field ls (if l.prefix == prefix && l.field == field then some l.key else found)

-- `host` is no prefix; it is the value of the host name lines of `prefix`, and of no others, and
-- `prefix` is the value of no host name line.
abbrev pub is_apart : (prefix host : String) → Line → Bool
is_apart prefix host l =
    not (l.prefix == host)
    && (not (l.field == "HOSTNAME")
        || (if l.prefix == prefix
            then l.value == host
            else not (l.value == host) && not (l.value == prefix)))

abbrev pub names_host : String → Line → Bool
names_host prefix l = l.prefix == prefix && l.field == "HOSTNAME"

abbrev cons_some : Option Line → Outcome (List Line) → Outcome (List Line)
cons_some l (raise e) = raise e
cons_some none (return ls) = return ls
cons_some (some l) (return ls) = return (l ∷ ls)

-- What the lines of a file say, if each can be read.
unfoldable pub read_all : List String → Outcome (List Line)
read_all [] = return []
read_all (line ∷ lines) =
    let rest = read_all lines in
    elim (parse_line line) [ raise e ↦ raise e | return l ↦ cons_some l rest ]

unfoldable pub note_all : List Line → Parsed → Parsed
note_all [] m = m
note_all (l ∷ ls) m = note_all ls (note l m)

note_read :
    (l : Option Line) (ls : List Line) (rest : Outcome (List Line))
    → cons_some l rest ≡ return ls
    → (ls' : List Line) × (rest ≡ return ls')
      × ((m : Parsed) → note_all ls m ≡ note_all ls' (note_some l m))
unfolding note_all
note_read l ls (raise x) e = absurd (ground arith)
note_read none ls (return ls') e =
    (ls', refl, λ m. ap (λ o. elim o [ return t ↦ note_all t m | raise x ↦ m ]) (sym e))
note_read (some l) ls (return ls') e =
    (ls', refl, λ m. ap (λ o. elim o [ return t ↦ note_all t m | raise x ↦ m ]) (sym e))

pub parse_lines-note_all :
    (lines : List String) (ls : List Line) (m : Parsed)
    → read_all lines ≡ return ls
    → parse_lines lines m ≡ return (note_all ls m)
unfolding parse_lines read_all note_all
parse_lines-note_all [] ls m read =
    ap (λ o. elim o [ return ls ↦ return (note_all ls m) | raise e ↦ return m ]) read
parse_lines-note_all (line ∷ lines) ls m read = elim (Outcome-cases (parse_line line)) [
  | inr (e, failed) ↦ absurd (ground arith)
  | inl (l, ok) ↦
      let (ls', more, same) = note_read l ls (read_all lines) (ground arith) in
      rw (ok, parse_lines)
        (parse_lines-note_all lines ls' (note_some l m) more ∙ ap return (sym (same m)))
]
