-- ===== src/Samba/Requests.antt =====
-- samba/test/src/main.py: which requests get to the server, and what the connection route answers.
use dockerize_and_ansible.Base.{
  ℕ, String, ◌≡◌, refl, ◌⊎◌, inl, inr, Bool, true, false, Option, none, some, List, [], ◌∷◌, All,
  Option-cases, ◌==◌, string_eq, if◌then◌else◌, Bool-cases,
}
use dockerize_and_ansible.Base.Dict
use dockerize_and_ansible.Base.Effect.{
  Exception, Outcome, return, raise, M, pure, throw, ◌>>=◌, Outcome-cases,
}
use dockerize_and_ansible.Samba.{Value, text, number, boolean, other, State}
use dockerize_and_ansible.Samba.Checks.{
  Data, Request, must_be_json, missing_parameter, invalid_format, Response, respond, is_valid_ip,
  is_valid_port, is_valid, text_is_valid_ip, check_fields, validate_json,
}
use Prim.Native.Char.{Char}

-- What the validators ask of a field.
abbrev is_text_ip : (Char → Option ℕ) → Value → Bool
is_text_ip digit (text ip) = is_valid_ip digit ip
is_text_ip digit _ = false

abbrev accepts : (Char → Option ℕ) → String → Value → Bool
accepts digit name value =
    if name == "remote_ip"
    then is_text_ip digit value
    else if name == "port"
    then is_valid_port value
    else true

-- A field that is there with a value that its validator accepts.
pub record Accepted (digit : Char → Option ℕ) (values : Data) (name : String) : Type 0 where
  pub value : Value
  pub found : Dict.get values name ≡ some value
  pub accepted : accepts digit name value ≡ true

-- A request that gets to the handler.
pub record Handled (digit : Char → Option ℕ) (fields : List String) (request : Request)
    : Type 0 where
  pub values : Data
  pub is_json : request.is_json ≡ true
  pub parsed : request.json ≡ return values
  pub all : All (Accepted digit values) fields

-- An answer by the decorator alone: the code 400, or an exception of the parser or of a validator.
abbrev pub IsRefusal : Outcome (Option Response) → Type 0
IsRefusal (return none) = ⊥
IsRefusal (return (some response)) = response.code ≡ 400
IsRefusal (raise e) = Unit

text_ip :
    (digit : Char → Option ℕ) (value : Value) (s : State)
    → (text_is_valid_ip digit value s ≡ (return (is_text_ip digit value), s))
      ⊎ ((e : Exception) × (text_is_valid_ip digit value s ≡ (raise e, s)))
unfolding pure throw
text_ip digit (text ip) s = inl refl
text_ip digit (number n) s = inr (_, refl)
text_ip digit (boolean b) s = inr (_, refl)
text_ip digit other s = inr (_, refl)

-- A check changes nothing, and says yes just for what the validator accepts.
is_valid-accepts :
    (digit : Char → Option ℕ) (name : String) (value : Value) (s : State)
    → (is_valid digit name value s ≡ (return (accepts digit name value), s))
      ⊎ ((e : Exception) × (is_valid digit name value s ≡ (raise e, s)))
unfolding is_valid pure
is_valid-accepts digit name value s = elim (Bool-cases (name == "remote_ip")) [
  | inl ip ↦ rw (ip, is_valid) (text_ip digit value s)
  | inr none_ip ↦ inl (
      rw (none_ip, is_valid)
        (elim (Bool-cases (name == "port")) [
          | inl port ↦ rw port refl
          | inr none_port ↦ rw none_port refl
        ]))
]

module _ (digit : Char → Option ℕ) (values : Data) (s : State) where
  Checked : List String → Type 0
  Checked names =
      ((check_fields digit values names s ≡ (return none, s)) × All (Accepted digit values) names)
      ⊎ ((o : Outcome (Option Response)) × (check_fields digit values names s ≡ (o, s))
          × IsRefusal o)

  check_fields-Checked : (names : List String) → Checked names
  unfolding check_fields pure ◌>>=◌ Checked
  check_fields-Checked [] = inl (refl, tt)
  check_fields-Checked (name ∷ names) = elim (Option-cases (Dict.get values name)) [
    | inl missing ↦ inr (
      return (some (respond 400 (missing_parameter name))),
      rw (missing, check_fields) refl,
      refl,
    )
    | inr (value, found) ↦ elim (is_valid-accepts digit name value s) [
      | inr (e, raised) ↦ inr (raise e, rw (found, check_fields, raised) refl, tt)
      | inl answered ↦ elim (Bool-cases (accepts digit name value)) [
        | inr refused ↦ inr (
          return (some (respond 400 (invalid_format name))),
          rw (found, check_fields, answered, refused) refl,
          refl,
        )
        | inl accepted ↦ elim (check_fields-Checked names) [
          | inl (passed, all) ↦ inl (
            rw (found, check_fields, answered, accepted) passed,
            (record { value = value; found = found; accepted = accepted }, all),
          )
          | inr (o, stopped, refusal) ↦
              inr (o, rw (found, check_fields, answered, accepted) stopped, refusal)
        ]
      ]
    ]
  ]

stopped_early :
    (digit : Char → Option ℕ) (fields : List String) (func : Data → M State (Option Response))
    (request : Request) (values : Data) (s : State)
    → request.is_json ≡ true
    → request.json ≡ return values
    → (o : Outcome (Option Response)) → check_fields digit values fields s ≡ (o, s)
    → IsRefusal o
    → validate_json digit fields func request s ≡ (o, s)
unfolding validate_json pure ◌>>=◌
stopped_early digit fields func request values s is_json parsed (return none) stopped refusal =
    absurd refusal
stopped_early digit fields func request values s is_json parsed (return (some r)) stopped refusal =
    rw (is_json, validate_json, parsed, stopped) refl
stopped_early digit fields func request values s is_json parsed (raise e) stopped refusal =
    rw (is_json, validate_json, parsed, stopped) refl

-- A route either hands a request to its handler, as it is, and then the request is JSON and has
-- each required field with a value that its validator accepts; or it refuses it with the code 400
-- or an exception, and asks nothing of the outside.
pub validate_json-Handled :
    (digit : Char → Option ℕ) (fields : List String) (func : Data → M State (Option Response))
    (request : Request) (s : State)
    → ((h : Handled digit fields request) × (validate_json digit fields func request s
          ≡ func h.values s))
      ⊎ ((o : Outcome (Option Response)) × (validate_json digit fields func request s ≡ (o, s))
          × IsRefusal o)
unfolding validate_json pure ◌>>=◌ Checked
validate_json-Handled digit fields func request s = elim (Bool-cases request.is_json) [
  | inr other_body ↦
      inr (return (some (respond 400 must_be_json)), rw (other_body, validate_json) refl, refl)
  | inl is_json ↦ elim (Outcome-cases request.json) [
    | inr (e, broken) ↦ inr (raise e, rw (is_json, validate_json, broken) refl, tt)
    | inl (values, parsed) ↦ elim (check_fields-Checked digit values s fields) [
      | inl (passed, all) ↦ inl (
        record { values = values; is_json = is_json; parsed = parsed; all = all },
        rw (is_json, validate_json, parsed, passed) refl,
      )
      | inr (o, stopped, refusal) ↦ inr (
        o,
        stopped_early digit fields func request values s is_json parsed o stopped refusal,
        refusal,
      )
    ]
  ]
]
