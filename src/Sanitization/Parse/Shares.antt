-- ===== src/Sanitization/Parse/Shares.antt =====
-- Which keys of the file of secrets stand under a host name.
use dockerize_and_ansible.Base.{
  ℕ, String, ◌≡◌, refl, ◌∙◌, ap, inl, inr, Bool, true, false, ◌&&◌, ◌||◌, Option, none, some, List,
  [], ◌∷◌, All, any, map, ◌==◌, if◌then◌else◌, string_eq, nat_eq, arith, Bool-cases, Option-cases,
}
use dockerize_and_ansible.Base.Dict
use dockerize_and_ansible.Base.Dict.{Dict, get-put, has-put, has-get, has-true-get}
use dockerize_and_ansible.Base.Effect.{Outcome, return}
use dockerize_and_ansible.Sanitization.{Mapping}
use dockerize_and_ansible.Sanitization.Parse.{
  Line, Parsed, nothing_parsed, ensure, entry_at, put_field, is_field, note, mapping_of, as_mapping,
  parse_file, parse_credentials,
}
use mathlib.Core.Path.{subst}
use dockerize_and_ansible.Sanitization.Parse.Reading.{
  last_key, is_apart, names_host, read_all, note_all, parse_lines-note_all,
}
use dockerize_and_ansible.Sanitization.Parse.Tracks.{
  field_at, Tracks, ensure-Tracks, put_field-Tracks, copy_reference-Tracks,
}

module _ (prefix host field : String) where
  ensure-get :
      (m : Parsed) (name : String) → (a : ℕ) × (Dict.get (ensure name m).names name ≡ some a)
  unfolding ensure
  ensure-get m name = elim (Bool-cases (Dict.has m.names name)) [
    | inl present ↦ rw present (has-true-get m.names name present)
    | inr absent ↦ (m.fresh, ground (arith, get-put m.names name name m.fresh))
  ]

  put_field-names : (m : Parsed) (l : Line) → (put_field l m).names ≡ m.names
  unfolding put_field
  put_field-names m l = elim (Option-cases (Dict.get m.names l.prefix)) [
    | inl missing ↦ rw missing
    | inr (a, at) ↦ rw at
  ]

  as_well :
      (found found' : Option String) (bound bound' : Bool) (m : Parsed)
      → found ≡ found'
      → bound ≡ bound'
      → Tracks prefix host field found bound m
      → Tracks prefix host field found' bound' m
  as_well found found' bound bound' m p q t =
      subst (λ b. Tracks prefix host field found' b m) q
        (subst (λ f. Tracks prefix host field f bound m) p t)

  note-Tracks :
      (found : Option String) (bound : Bool) (m : Parsed) (l : Line)
      → is_field field ≡ true
      → is_apart prefix host l ≡ true
      → Tracks prefix host field found bound m
      → Tracks prefix host field
          (if l.prefix == prefix && l.field == field then some l.key else found)
          (bound || names_host prefix l)
          (note l m)
  unfolding note
  note-Tracks found bound m l known is_it t = elim (Bool-cases (is_field l.field)) [
    | inl a_field ↦
        let (a, at) = ensure-get m l.prefix in
        let ensured = ensure-Tracks prefix host field found bound m l.prefix (ground arith) t in
        let stored =
          put_field-Tracks prefix host field found bound (ensure l.prefix m) l a at (ground arith)
            ensured in
        let still =
          ap (λ names. Dict.get names l.prefix) (put_field-names (ensure l.prefix m) l) ∙ at in
        rw a_field (elim (Bool-cases (l.field == "HOSTNAME")) [
          | inl hostname ↦ rw hostname (
              as_well _ _ (bound || l.prefix == prefix) _ _ refl (ground arith)
                (copy_reference-Tracks prefix host field _ bound _ l a still is_it hostname stored))
          | inr another ↦ rw another (as_well _ _ bound _ _ refl (ground arith) stored)
        ])
    | inr other ↦
        let different : (l.field == field) ≡ false = ground arith in
        let no_host : (l.field == "HOSTNAME") ≡ false = ground arith in
        rw (other, no_host)
          (as_well found _ bound _ m (ground (arith, different)) (ground (arith, no_host)) t)
  ]

  note_all-Tracks :
      (ls : List Line) (found : Option String) (bound : Bool) (m : Parsed)
      → is_field field ≡ true
      → All (λ l. is_apart prefix host l ≡ true) ls
      → Tracks prefix host field found bound m
      → Tracks prefix host field
          (last_key prefix field ls found)
          (bound || any (names_host prefix) ls)
          (note_all ls m)
  unfolding last_key note_all
  note_all-Tracks [] found bound m known all t = as_well found _ bound _ m refl (ground arith) t
  note_all-Tracks (l ∷ ls) found bound m known (is_it, all) t =
      as_well _ _ ((bound || names_host prefix l) || any (names_host prefix) ls) _ _ refl
        (ground arith)
        (note_all-Tracks ls _ (bound || names_host prefix l) (note l m) known all
          (note-Tracks found bound m l known is_it t))

  nothing-Tracks : Tracks prefix host field none false nothing_parsed
  unfolding Dict.get
  nothing-Tracks = record {
    below = λ name a e. absurd (ground arith);
    alone = λ name a e f. absurd (ground arith);
    holds = refl;
    shares = λ b. absurd (ground arith);
  }

get-mapped :
    (d : Dict String ℕ) (f : ℕ → Dict String String) (name : String) (a : ℕ)
    → Dict.get d name ≡ some a
    → Dict.get (map (λ (other, b). (other, f b)) d) name ≡ some (f a)
unfolding Dict.get
get-mapped [] f name a at = absurd (ground arith)
get-mapped ((other, b) ∷ d) f name a at = ground (arith, get-mapped d f name a)

-- What the file makes of a prefix and its host name.
pub record SharedEntry (read : String → Outcome (List String)) (path : String) (ls : List Line)
    (prefix host : String) : Type 0 where
  pub mapping : Mapping
  pub entry : Dict String String
  pub parsed : parse_credentials read path ≡ return mapping
  pub at_prefix : Dict.get mapping prefix ≡ some entry
  pub at_host : Dict.get mapping host ≡ some entry
  pub keys :
      (field : String)
      → is_field field ≡ true
      → Dict.get entry field ≡ last_key prefix field ls none

pub shared_entry :
    (read : String → Outcome (List String)) (path : String) (lines : List String) (ls : List Line)
    (prefix host : String)
    → read path ≡ return lines
    → read_all lines ≡ return ls
    → All (λ l. is_apart prefix host l ≡ true) ls
    → any (names_host prefix) ls ≡ true
    → SharedEntry read path ls prefix host
unfolding parse_credentials string_eq
shared_entry read path lines ls prefix host opened readable apart named =
    let m = note_all ls nothing_parsed in
    let tracks : (field : String)
        → is_field field ≡ true
        → Tracks prefix host field (last_key prefix field ls none) (any (names_host prefix) ls) m =
      λ field known.
        note_all-Tracks prefix host field ls none false nothing_parsed known apart
          (nothing-Tracks prefix host field) in
    let (a, at_prefix, at_host) = (tracks "HOSTNAME" refl).shares named in
    record {
      mapping = mapping_of m;
      entry = entry_at m a;
      parsed =
          ap parse_file opened
          ∙ ap as_mapping (parse_lines-note_all lines ls nothing_parsed readable);
      at_prefix = get-mapped m.names (entry_at m) prefix a at_prefix;
      at_host = get-mapped m.names (entry_at m) host a at_host;
      keys = λ field known.
          subst (λ o. field_at m o field ≡ last_key prefix field ls none) at_prefix
            (tracks field known).holds;
    }

-- If every line of the file can be read, the mapping has one entry under a prefix and under its host
-- name, and this entry holds the key of the last line for each field: also of the lines behind the
-- one that names the host. The host must not be a prefix itself or belong to another one.
pub parse_credentials-shares :
    (read : String → Outcome (List String)) (path : String) (lines : List String) (ls : List Line)
    (prefix host : String)
    → read path ≡ return lines
    → read_all lines ≡ return ls
    → All (λ l. is_apart prefix host l ≡ true) ls
    → any (names_host prefix) ls ≡ true
    → (field : String) → is_field field ≡ true
    → (mapping : Mapping) × (entry : Dict String String) × (parse_credentials read path
        ≡ return mapping)
      × (Dict.get mapping prefix ≡ some entry)
      × (Dict.get mapping host ≡ some entry)
      × (Dict.get entry field ≡ last_key prefix field ls none)
parse_credentials-shares read path lines ls prefix host opened readable apart named field known =
    let shared = shared_entry read path lines ls prefix host opened readable apart named in
    (
      shared.mapping,
      shared.entry,
      shared.parsed,
      shared.at_prefix,
      shared.at_host,
      shared.keys field known,
    )
