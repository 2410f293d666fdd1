-- ===== src/Alerts.antt =====
-- gpdb/cron/send_alert.py: an alert of the database's monitor becomes a mail, with a remark from the
-- database where a rule for the alert is known.
pub mod Rules
pub mod Mails
use dockerize_and_ansible.Base.{
  ℕ, ◌+◌, String, ◌<>◌, Bool, true, false, ◌&&◌, ◌||◌, Option, none, some, List, [], ◌∷◌, ◌++◌,
  ◌==◌, if◌then◌else◌, string_eq, nat_eq, leb,
}
use dockerize_and_ansible.Base.Dict
use dockerize_and_ansible.Base.Dict.{Dict}
use dockerize_and_ansible.Base.Text.{cut, split, is_nonempty}
use dockerize_and_ansible.Base.Effect.{
  Exception, type_error, other_exception, Outcome, return, raise, M, pure, throw, try_except, ◌>>=◌,
  ◌>>◌,
}
use Prim.Native.Char.{Char, code}
use Prim.Native.String as Text

abbrev pub Row : Type 0
Row = Dict String String

-- The three statements, with the id of the session that stands in them.
pub data Query : Type 0 where
  activity_of : (sess_id : String) → Query
  blockers_of : (sess_id : String) → Query
  new_connections : Query

pub record Mail : Type 0 where
  pub subject : String
  pub rule_description : Option String
  pub alert_date : Option String
  pub alert_time : Option String
  pub server_name : String
  pub query_id : Option String
  pub query_text : Option String
  pub remark : String

pub data Event : Type 0 where
  connect : Event
  query : Query → Event
  close : Event
  post : Mail → Event

abbrev pub History : Type 0
History = List Event

pub record Env : Type 0 where
  pub connect : History → Outcome (Unit {0})
  pub dictresult : Query → History → Outcome (List Row)
  pub close : History → Outcome (Unit {0})
  pub post : Mail → History → Outcome String
  -- `json.dumps` of one row and of many
  pub dumps_row : Row → String
  pub dumps : List Row → String

pub record State : Type 0 where
  pub trace : History

unfoldable pub ask : {A : Type 0} → Event → (History → Outcome A) → M State A
ask e answer s = (answer s.trace, record { trace = s.trace ++ e ∷ [] })

-- Case folding of `re.I`: besides capital letters, two letters i, the long s and the Kelvin sign.
unfoldable pub fold : Char → ℕ
unfolding nat_eq
fold c =
    if leb 65 (code c) && leb (code c) 90
    then code c + 32
    else if code c == 0x130 || code c == 0x131
    then 105
    else if code c == 0x17f
    then 115
    else if code c == 0x212a
    then 107
    else code c

-- `re.match(pattern, text, re.I) is not None`, for a pattern that stands for itself
unfoldable pub matches : (pattern text : String) → Bool
unfolding nat_eq fold
matches Text.[] text = true
matches (Text.◌∷◌ c pattern) Text.[] = false
matches (Text.◌∷◌ c pattern) (Text.◌∷◌ d text) = fold c == fold d && matches pattern text

pub data Strategy : Type 0 where
  spilled_query slow_query blocked_query too_many_conn : Strategy

abbrev pub strategys : Dict String Strategy
strategys =
    ("Spill files", spilled_query)
    ∷ ("Query runtime exceeds", slow_query)
    ∷ ("Query is blocked", blocked_query)
    ∷ ("Number of connections exceeds", too_many_conn)
    ∷ []

-- The first rule that matches.
unfoldable pub rule_for : Dict String Strategy → String → Option Strategy
unfolding matches
rule_for [] description = none
rule_for ((characteristic, strategy) ∷ rules) description =
    let rest = rule_for rules description in
    if matches characteristic description then some strategy else rest

-- `dict(l.split('=', 1) for l in sys.argv[1:])`; an argument without the sign is a ValueError.
abbrev pub put_arg : Dict String String → Option (String × String) → Outcome (Dict String String)
put_arg args none = raise other_exception
put_arg args (some (name, value)) = return (Dict.put args name value)

unfoldable pub parse_args : List String → Dict String String → Outcome (Dict String String)
unfolding cut
parse_args [] args = return args
parse_args (l ∷ ls) args = elim (put_arg args (cut "=" l)) [
  | raise e ↦ raise e
  | return more ↦ parse_args ls more
]

abbrev pub mail_of : Dict String String → String → Mail
mail_of args remark = record {
  subject = "[Greenplum]" <> Dict.get_or args "SUBJECT" "Unknown Issue.";
  rule_description = Dict.get args "RULEDESCRIPTION";
  alert_date = Dict.get args "ALERTDATE";
  alert_time = Dict.get args "ALERTTIME";
  server_name = "IPT Greenplum Cluster";
  query_id = Dict.get args "QUERYID";
  query_text = Dict.get args "QUERYTEXT";
  remark = remark;
}

-- `xs[1]`
abbrev pub second : List String → M State String
second (x ∷ y ∷ xs) = pure y
second xs = throw other_exception

module _ (env : Env) where
  abbrev pub first_row : List Row → String
  first_row [] = ""
  first_row (row ∷ rows) = env.dumps_row row

  abbrev pub all_rows : List Row → String
  all_rows [] = ""
  all_rows (row ∷ rows) = env.dumps (row ∷ rows)

  unfoldable pub alert_slow_query : (sess_id : String) → M State String
  alert_slow_query sess_id = do
    res ← ask (query (activity_of sess_id)) (env.dictresult (activity_of sess_id))
    pure (first_row res)

  unfoldable pub alert_spilled_query : (sess_id : String) → M State String
  alert_spilled_query sess_id = alert_slow_query sess_id

  unfoldable pub alert_blocked_query : (sess_id : String) → M State String
  alert_blocked_query sess_id = do
    res ← ask (query (blockers_of sess_id)) (env.dictresult (blockers_of sess_id))
    pure (all_rows res)

  unfoldable pub alert_too_many_conn : M State String
  alert_too_many_conn = do
    res ← ask (query new_connections) (env.dictresult new_connections)
    pure (env.dumps res)

  -- `strategys[characteristic]`, called with a session or without; another number of arguments than
  -- the function takes is a TypeError.
  unfoldable pub call : Strategy → Option String → M State String
  call spilled_query (some sess_id) = alert_spilled_query sess_id
  call slow_query (some sess_id) = alert_slow_query sess_id
  call blocked_query (some sess_id) = alert_blocked_query sess_id
  call too_many_conn none = alert_too_many_conn
  call _ _ = throw type_error

  unfoldable pub remark_by : Strategy → (query_id : String) → M State String
  unfolding split
  remark_by strategy query_id =
      if is_nonempty query_id
      then (do sess_id ← second (split "-" query_id); call strategy (some sess_id))
      else call strategy none

  -- The block with `finally: conn.close()`, where `conn` has no value if the connection failed: a
  -- NameError that no handler catches.
  unfoldable pub consult : Strategy → (query_id : String) → M State String
  consult strategy query_id = do
    opened ← try_except (do ask connect env.connect; pure true) (λ e. pure false)
    if opened
        then (do
          remark ← try_except (remark_by strategy query_id) (λ e. pure "")
          ask close env.close
          pure remark)
        else throw other_exception

  unfoldable pub remark_for : Option Strategy → (query_id : String) → M State String
  remark_for none query_id = pure ""
  remark_for (some strategy) query_id = consult strategy query_id

  unfoldable pub send_mail : Mail → M State String
  send_mail mail = ask (post mail) (env.post mail)

  unfoldable pub send_alert : Dict String String → M State String
  unfolding Dict.get_or
  send_alert args = do
    remark ←
        remark_for (rule_for strategys (Dict.get_or args "RULEDESCRIPTION" ""))
          (Dict.get_or args "QUERYID" "")
    send_mail (mail_of args remark)

  abbrev pub with_args : Outcome (Dict String String) → M State String
  with_args (return args) = send_alert args
  with_args (raise e) = throw e

  unfoldable pub main : List String → M State String
  main argv = with_args (parse_args argv [])
