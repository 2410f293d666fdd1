-- ===== src/Samba/Checks.antt =====
-- samba/test/src/main.py: requests, responses and the checks before a handler runs.
use dockerize_and_ansible.Base.{
  ℕ, ◌+◌, ◌*◌, String, Bool, true, false, not, ◌&&◌, Option, none, some, List, [], ◌∷◌, length,
  every, ◌==◌, nat_eq, string_eq, if◌then◌else◌, ltb, leb,
}
use dockerize_and_ansible.Base.Dict
use dockerize_and_ansible.Base.Dict.{Dict}
use dockerize_and_ansible.Base.Text.{split}
use dockerize_and_ansible.Base.Effect.{key_error, type_error, Outcome, M, pure, throw, ◌>>=◌}
use dockerize_and_ansible.Samba.{Value, text, number, boolean, State}
use Prim.Native.Char.{Char, code}
use Prim.Native.String.{count}

abbrev pub Data : Type 0
Data = Dict String Value

-- The body is answered as `get_json` does; one that is no JSON object is not modelled.
pub record Request : Type 0 where
  pub is_json : Bool
  pub json : Outcome Data

pub data Message : Type 0 where
  must_be_json connection_failed download_failed : Message
  missing_parameter invalid_format : String → Message
  connection_successful : List String → Message
  download_successful : (file_name : String) → (size : ℕ) → (local_path : String) → Message

-- The code stands in the body and in the status.
pub record Response : Type 0 where
  pub code : ℕ
  pub message : Message

abbrev pub respond : ℕ → Message → Response
respond code message = record { code = code; message = message }

-- `$` also matches before a line break that ends the text, and `int` reads over it.
unfoldable pub drop_newline : String → String
unfolding nat_eq
drop_newline String.[] = ""
drop_newline (String.◌∷◌ c String.[]) = if code c == 10 then "" else String.◌∷◌ c String.[]
drop_newline (String.◌∷◌ c (String.◌∷◌ d s)) = String.◌∷◌ c (drop_newline (String.◌∷◌ d s))

-- The value of a text of digits, by Unicode's table of decimal digits.
unfoldable pub decimal : (Char → Option ℕ) → ℕ → String → Option ℕ
decimal digit value String.[] = some value
decimal digit value (String.◌∷◌ c s) = elim (digit c) [
  | none ↦ none
  | some d ↦ decimal digit (10 * value + d) s
]

-- One to three digits, of a value up to 255.
unfoldable pub is_octet : (Char → Option ℕ) → String → Bool
is_octet digit s =
    let size = count s in
    leb 1 size
    && leb size 3
    && elim (decimal digit 0 s) [ none ↦ false | some value ↦ leb value 255 ]

unfoldable pub is_valid_ip : (Char → Option ℕ) → String → Bool
unfolding split nat_eq
is_valid_ip digit ip =
    let parts = split "." (drop_newline ip) in length parts == 4 && every (is_octet digit) parts

-- A Boolean is an `int` too.
unfoldable pub is_valid_port : Value → Bool
is_valid_port (number port) = ltb 0 port && leb port 65535
is_valid_port (boolean port) = port
is_valid_port _ = false

abbrev pub text_is_valid_ip : (Char → Option ℕ) → Value → M State Bool
text_is_valid_ip digit (text ip) = pure (is_valid_ip digit ip)
text_is_valid_ip digit _ = throw type_error

-- `validators`: a field without a validator is valid.
unfoldable pub is_valid : (Char → Option ℕ) → String → Value → M State Bool
is_valid digit field value =
    if field == "remote_ip"
    then text_is_valid_ip digit value
    else if field == "port"
    then pure (is_valid_port value)
    else pure true

-- `values[field]`
unfoldable pub field : Data → String → M State Value
field values name = elim (Dict.get values name) [ none ↦ throw key_error | some value ↦ pure value ]

-- The loop over the required fields, with the response that ends it early.
unfoldable pub check_fields : (Char → Option ℕ) → Data → List String → M State (Option Response)
check_fields digit values [] = pure none
check_fields digit values (name ∷ names) = elim (Dict.get values name) [
  | none ↦ pure (some (respond 400 (missing_parameter name)))
  | some value ↦ do
    valid ← is_valid digit name value
    if valid
        then check_fields digit values names
        else pure (some (respond 400 (invalid_format name)))
]

abbrev pub or_respond : Option Response → M State (Option Response) → M State (Option Response)
or_respond none rest = rest
or_respond (some response) rest = pure (some response)

abbrev pub lift : {A : Type 0} → Outcome A → M State A
lift o s = (o, s)

-- The decorator; the handlers that it wraps may run out of fuel.
unfoldable pub validate_json :
    (Char → Option ℕ)
    → List String
    → (Data → M State (Option Response))
    → Request
    → M State (Option Response)
validate_json digit required_fields func request =
    if not request.is_json then pure (some (respond 400 must_be_json)) else (do
      values ← lift request.json
      early ← check_fields digit values required_fields
      or_respond early (func values))
