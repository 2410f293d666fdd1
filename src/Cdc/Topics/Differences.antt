-- ===== src/Cdc/Topics/Differences.antt =====
-- What the three differences of `check_and_repair_kafka_topics` amount to.
use dockerize_and_ansible.Base.{
  ◌+◌, String, ◌≡◌, refl, Bool, true, not, ◌&&◌, ◌||◌, List, [], ◌∷◌, ◌++◌, map, any, keep,
  contains, contains-keep, add, update, length, string_eq, arith, starts_with, Bool-cases, inl, inr,
}
use dockerize_and_ansible.Base.Text.{has_char, starts_with-before_last}
use dockerize_and_ansible.Cdc.Topics.{prefix_of, matches, audit_topics}

-- A topic that is expected is found if Kafka has it: by its own prefix, or as an exact match.
module _ (p : String → Bool) where
  any-contains :
      (xs : List String) (x : String) → contains xs x ≡ true → p x ≡ true → any p xs ≡ true
  any-contains [] x m h = cc
  any-contains (y ∷ xs) x m h = ground (arith, any-contains xs x)

  any-append : (xs ys : List String) → any p (xs ++ ys) ≡ (any p xs || any p ys)
  any-append [] ys = refl
  any-append (x ∷ xs) ys = ground (arith, any-append xs ys)

  any-add : (s : List String) (x : String) → any p (add s x) ≡ (any p s || p x)
  unfolding add
  any-add s x = ground (arith, any-append s (x ∷ []), any-contains s x)

  any-update : (s xs : List String) → any p (update s xs) ≡ (any p s || any p xs)
  unfolding update
  any-update s [] = ground arith
  any-update s (x ∷ xs) = ground (arith, any-update (add s x) xs, any-add s x)

-- An expected topic with a dot under whose prefix the topic lies.
abbrev pub shares_prefix : List String → String → Bool
shares_prefix expected t = any (λ e. has_char "." e && starts_with t (prefix_of e)) expected

any-prefixes :
    (expected : List String) (t : String)
    → any (λ prefix. starts_with t prefix) (map prefix_of (keep (has_char ".") expected))
      ≡ shares_prefix expected t
any-prefixes [] t = refl
any-prefixes (e ∷ expected) t = ground (arith, any-prefixes expected t)

matches_lem :
    (expected : List String) (t : String)
    → matches expected t
      ≡ (shares_prefix expected t || (contains expected t && not (has_char "." t)))
matches_lem expected t = rw (
  any-update (starts_with t) [] (map prefix_of (keep (has_char ".") expected)),
  any-prefixes expected t,
  contains-keep (λ e. not (has_char "." e)) expected t,
)

-- A topic with a dot lies under its own prefix.
matches-expected :
    (expected : List String) (t : String) → contains expected t ≡ true → matches expected t ≡ true
matches-expected expected t m = elim (Bool-cases (has_char "." t)) [
  | inl dotted ↦ rw (
    matches_lem,
    any-contains (λ e. has_char "." e && starts_with t (prefix_of e)) expected t m
        (rw (dotted, starts_with-before_last "." t dotted)),
  )
  | inr plain ↦ rw (matches_lem, m, plain) (ground arith)
]

-- The three reports, in terms of what is expected, what Kafka has and what is active: a topic is
-- missing exactly if it is expected and Kafka lacks it; deprecated exactly if Kafka has it, it is
-- not expected, and it lies under the prefix of an expected topic; inactive exactly if it is
-- expected and not active.
pub audit_topics-members :
    (all_topics expected active : List String) (t : String)
    → let report = audit_topics all_topics expected active in
      (contains report.missing t ≡ (contains expected t && not (contains all_topics t)))
      × (contains report.deprecated t
          ≡ (contains all_topics t && (not (contains expected t) && shares_prefix expected t)))
      × (contains report.inactive t ≡ (contains expected t && not (contains active t)))
unfolding audit_topics
audit_topics-members all_topics expected active t = (
  rw (contains-keep, contains-keep) (ground (arith, matches-expected expected t)),
  rw (contains-keep, contains-keep, matches_lem) (ground arith),
  contains-keep _ expected t,
)

length-keep-not :
    (p : String → Bool) (xs : List String)
    → length (keep (λ x. not (p x)) xs) + length (keep p xs) ≡ length xs
length-keep-not p [] = omega arith
length-keep-not p (x ∷ xs) = ground (arith, length-keep-not p xs)

-- The count of active topics is that of the expected topics that are active, and the subtraction
-- never goes below zero.
pub audit_topics-active :
    (all_topics expected active : List String)
    → let report = audit_topics all_topics expected active in
      (report.active ≡ length (keep (contains active) expected))
      × (report.active + length report.inactive ≡ report.expected)
unfolding audit_topics
audit_topics-active all_topics expected active =
    omega (arith, length-keep-not (contains active) expected)
