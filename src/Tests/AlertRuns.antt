-- ===== src/Tests/AlertRuns.antt =====
-- gpdb/cron/send_alert.py at one slow query.
use dockerize_and_ansible.Base.{
  String, ◌≡◌, refl, ◌↔◌, true, some, List, [], ◌∷◌, ◌++◌, nat_eq, string_eq,
}
use dockerize_and_ansible.Base.Dict
use dockerize_and_ansible.Base.Dict.{Dict}
use dockerize_and_ansible.Base.Text.{cut, split}
use dockerize_and_ansible.Base.Effect.{
  return, raise, other_exception, try_except, pure, throw, ◌>>=◌,
}
use dockerize_and_ansible.Alerts.{
  Env, State, connect, query, close, post, activity_of, slow_query, strategys, fold, matches,
  rule_for, parse_args, mail_of, ask, alert_slow_query, call, remark_by, consult, remark_for,
  send_mail, send_alert, main,
}
use dockerize_and_ansible.Alerts.Rules.{rule_for_iff}
use dockerize_and_ansible.Alerts.Mails.{mails, main-mails, main-loses}
use mathlib.Core.List.{Memᴰ}

abbrev alert_env : Env
alert_env = record {
  connect = λ h. return tt;
  dictresult = λ q h. return ((("pid", "7") ∷ []) ∷ []);
  close = λ h. return tt;
  post = λ mail h. return "ok";
  dumps_row = λ row. "{pid: 7}";
  dumps = λ rows. "[{pid: 7}]";
}

abbrev argv : List String
argv = "RULEDESCRIPTION=query runtime exceeds 8 min" ∷ "QUERYID=1604464374-345372-1" ∷ []

abbrev slow_args : Dict String String
slow_args =
    ("RULEDESCRIPTION", "query runtime exceeds 8 min") ∷ ("QUERYID", "1604464374-345372-1") ∷ []

abbrev start : State
start = record { trace = [] }

argv-read : parse_args argv [] ≡ return slow_args
unfolding parse_args cut Dict.put nat_eq string_eq
argv-read = refl

slow_alert :
    (main alert_env argv start).1.trace
    ≡ connect ∷ query (activity_of "345372") ∷ close ∷ post (mail_of slow_args "{pid: 7}") ∷ []
unfolding main parse_args cut Dict.put Dict.get_or Dict.get nat_eq string_eq rule_for matches fold
    send_alert remark_for consult remark_by split call alert_slow_query send_mail ask pure throw
    try_except ◌>>=◌
slow_alert = refl

rule_for_iff_example : (rule_for strategys "QUERY RUNTIME EXCEEDS 8 MIN" ≡ some slow_query) ↔ (
    (c : String) × Memᴰ (c, slow_query) strategys
    × (matches c "QUERY RUNTIME EXCEEDS 8 MIN" ≡ true))
rule_for_iff_example = rule_for_iff "QUERY RUNTIME EXCEEDS 8 MIN" slow_query

main-mails_example :
    (remark : String) × (mails (main alert_env argv start).1.trace
      ≡ mails [] ++ mail_of slow_args remark ∷ [])
main-mails_example = main-mails alert_env argv slow_args argv-read (λ h. refl) (λ h. refl) start

abbrev down_env : Env
down_env = let base = alert_env in record base { connect = λ h. raise other_exception }

main-loses_example :
    main down_env argv start ≡ (raise other_exception, record { trace = connect ∷ [] })
unfolding rule_for matches fold Dict.get_or Dict.get string_eq nat_eq
main-loses_example =
    main-loses down_env argv slow_args slow_query other_exception start argv-read refl refl
