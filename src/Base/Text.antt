-- ===== src/Base/Text.antt =====
-- The `str` methods that the programs call, over Python's code points.
use Prim.Native.Char.{Char, code}
use Prim.Native.String.{String, ◌++◌}
use Prim.Native.String.append
use mathlib.Core.Path.{◌≡◌, refl, ap, subst, sym, ◌∙◌}
use mathlib.Core.Bool.{Bool, true, false, not, ◌&&◌, ◌||◌}
use mathlib.Core.Option.{Option, none, some}
use mathlib.Core.Logic.{inl, inr}
use mathlib.Core.List.{List, [], ◌∷◌}
use native.Mathlib.Omega.{arith}
use text.Mathlib.Text.{starts_with, find?}
use text.Mathlib.TextEquality.{Char-path}
use text.Mathlib.TextLemmas
use text.Mathlib.TextPositions.{starts_with-append}
use dockerize_and_ansible.Base.Equality.{◌==◌, nat_eq, if◌then◌else◌}
use dockerize_and_ansible.Base.Tests.{leb, Bool-cases}

-- `if s:` on a text
abbrev pub is_nonempty : String → Bool
is_nonempty String.[] = false
is_nonempty (String.◌∷◌ _ _) = true

-- `t in s`
abbrev pub includes : String → String → Bool
includes s t = elim (find? s t) [ none ↦ false | some _ ↦ true ]

abbrev pub same : Char → Char → Bool
same c d = code c == code d

-- `c in s`, for one character
unfoldable pub has_char : Char → String → Bool
unfolding nat_eq
has_char c String.[] = false
has_char c (String.◌∷◌ d s) = same d c || has_char c s

abbrev push : Char → List String → List String
push d [] = (String.◌∷◌ d String.[]) ∷ []
push d (p ∷ ps) = (String.◌∷◌ d p) ∷ ps

-- `s.split(c)`
unfoldable pub split : Char → String → List String
unfolding nat_eq
split c String.[] = "" ∷ []
split c (String.◌∷◌ d s) = let rest = split c s in if same d c then "" ∷ rest else push d rest

-- `xs[-1]`, for a list that is not empty; a split never is.
abbrev pub last : List String → String
last [] = ""
last (x ∷ []) = x
last (x ∷ y ∷ ys) = last (y ∷ ys)

-- `s.split(c, 1)`, if there are two parts
unfoldable pub cut : Char → String → Option (String × String)
unfolding nat_eq
cut c String.[] = none
cut c (String.◌∷◌ d s) =
    let rest = cut c s in
    if same d c
    then some ("", s)
    else elim rest [ none ↦ none | some (left, right) ↦ some (String.◌∷◌ d left, right) ]

-- `s.rsplit(c, 1)[0]`: all before the last `c`, or all of `s` if there is none
unfoldable pub before_last : Char → String → String
unfolding has_char
before_last c String.[] = ""
before_last c (String.◌∷◌ d s) =
    let rest = String.◌∷◌ d (before_last c s) in
    if has_char c s then rest else if same d c then "" else String.◌∷◌ d s

-- What stands after the last `c`.
unfoldable pub after_last : Char → String → String
unfolding has_char
after_last c String.[] = ""
after_last c (String.◌∷◌ d s) =
    let rest = after_last c s in if has_char c s then rest else if same d c then s else ""

-- `str.isspace` on one character
unfoldable pub is_space : Char → Bool
unfolding nat_eq
is_space c =
    (leb 9 (code c) && leb (code c) 13)
    || (leb 28 (code c) && leb (code c) 32)
    || (code c == 0x85)
    || (code c == 0xa0)
    || (code c == 0x1680)
    || (leb 0x2000 (code c) && leb (code c) 0x200a)
    || (code c == 0x2028)
    || (code c == 0x2029)
    || (code c == 0x202f)
    || (code c == 0x205f)
    || (code c == 0x3000)

-- `s.lstrip()` and `s.rstrip()` by a test on characters
unfoldable pub lstrip : (Char → Bool) → String → String
lstrip p String.[] = ""
lstrip p (String.◌∷◌ c s) = let rest = lstrip p s in if p c then rest else String.◌∷◌ c s

unfoldable pub rstrip : (Char → Bool) → String → String
rstrip p String.[] = ""
rstrip p (String.◌∷◌ c s) =
    let rest = rstrip p s in if not (is_nonempty rest) && p c then "" else String.◌∷◌ c rest

-- `s.strip()`, and `s.strip(cs)` for the characters of a text
unfoldable pub strip : String → String
unfolding lstrip rstrip is_space
strip s = lstrip is_space (rstrip is_space s)

unfoldable pub strip_of : String → String → String
unfolding lstrip rstrip has_char
strip_of cs s = lstrip (λ c. has_char c cs) (rstrip (λ c. has_char c cs) s)

-- `s.replace(t, u, 1)` for a `t` at the start of `s`, which the callers have tested
unfoldable pub remove_prefix : String → String → String
remove_prefix String.[] s = s
remove_prefix (String.◌∷◌ c t) String.[] = ""
remove_prefix (String.◌∷◌ c t) (String.◌∷◌ d s) = remove_prefix t s

abbrev of_char : Char → String
of_char c = String.◌∷◌ c String.[]

same-eq : (d c : Char) → same d c ≡ true → d ≡ c
same-eq d c h = Char-path d c (ground arith)

pub before_last-append :
    (c : Char) (s : String)
    → has_char c s ≡ true
    → s ≡ before_last c s ++ (of_char c ++ after_last c s)
unfolding before_last after_last
before_last-append c String.[] h = cc
before_last-append c (String.◌∷◌ d s) h = elim (Bool-cases (has_char c s)) [
  | inl more ↦ rw more (
      ap (String.◌∷◌ d) (before_last-append c s more)
      ∙ sym (append.cons d (before_last c s) (of_char c ++ after_last c s)))
  | inr final ↦ rw final (elim (Bool-cases (same d c)) [
    | inl e ↦ rw e (
        ap (λ x. String.◌∷◌ x s) (same-eq d c e)
        ∙ sym (append.cons c "" s ∙ ap (String.◌∷◌ c) (append.nil s))
        ∙ sym (append.nil (of_char c ++ s)))
    | inr n ↦ absurd (ground arith)
  ])
]

-- A text with a `c` starts with all that stands before its last `c`, and the `c`.
pub starts_with-before_last :
    (c : Char) (s : String)
    → has_char c s ≡ true
    → starts_with s (before_last c s ++ of_char c) ≡ true
starts_with-before_last c s h =
    subst (λ t. starts_with t (before_last c s ++ of_char c) ≡ true)
      (sym (
        before_last-append c s h
        ∙ sym (TextLemmas.append_assoc (before_last c s) (of_char c) (after_last c s))))
      (starts_with-append (before_last c s ++ of_char c) (after_last c s))

splits : split "," "a,b,,c" ≡ "a" ∷ "b" ∷ "" ∷ "c" ∷ []
unfolding split
splits = refl

strips : strip "  a b " ≡ "a b"
unfolding strip
strips = refl

dots : before_last "." "a.b.c" ≡ "a.b"
unfolding before_last
dots = refl
