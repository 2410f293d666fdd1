-- ===== src/Alerts/Mails.antt =====
-- Which mails gpdb/cron/send_alert.py sends.
use dockerize_and_ansible.Base.{
  String, ◌≡◌, refl, ◌∙◌, ap, true, false, Option, none, some, List, [], ◌∷◌, ◌++◌, append-nil,
  string_eq,
}
use dockerize_and_ansible.Base.Dict
use dockerize_and_ansible.Base.Dict.{Dict}
use dockerize_and_ansible.Base.Effect.{
  Exception, other_exception, Outcome, return, raise, pure, throw, try_except, ◌>>=◌, ◌>>◌,
  bind-of_return, try_except-returns,
}
use dockerize_and_ansible.Base.Effect.Keeps.{Keeps, Keeps-pure, Keeps-throw, keeps_rules}
use dockerize_and_ansible.Alerts.{
  Query, Mail, Event, connect, query, close, post, History, Env, State, ask, Strategy,
  spilled_query, slow_query, blocked_query, too_many_conn, strategys, rule_for, parse_args, mail_of,
  second, alert_slow_query, alert_spilled_query, alert_blocked_query, alert_too_many_conn, call,
  remark_by, consult, remark_for, send_mail, send_alert, with_args, main,
}

-- The mails among the calls.
unfoldable pub mails : History → List Mail
mails [] = []
mails (post mail ∷ h) = mail ∷ mails h
mails (connect ∷ h) = mails h
mails (query q ∷ h) = mails h
mails (close ∷ h) = mails h

mails-append : (h k : History) → mails (h ++ k) ≡ mails h ++ mails k
unfolding mails
mails-append [] k = refl
mails-append (post mail ∷ h) k = ap (λ t. mail ∷ t) (mails-append h k)
mails-append (connect ∷ h) k = mails-append h k
mails-append (query q ∷ h) k = mails-append h k
mails-append (close ∷ h) k = mails-append h k

module _ (sent : List Mail) where
  abbrev Sent : State → Type 0
  Sent s = mails s.trace ≡ sent

  ask-Keeps :
      {A : Type 0} (e : Event) (answer : History → Outcome A)
      → mails (e ∷ []) ≡ []
      → Keeps Sent (ask e answer)
  unfolding ask
  ask-Keeps e answer silent = record {
    at = λ s h.
        mails-append s.trace (e ∷ [])
        ∙ ap (λ t. mails s.trace ++ t) silent
        ∙ append-nil (mails s.trace)
        ∙ h;
  }

  module _ (env : Env) where
    query-Keeps : (q : Query) → Keeps Sent (ask (query q) (env.dictresult q))
    unfolding mails
    query-Keeps q = ask-Keeps (query q) (env.dictresult q) refl

    slow-Keeps : (sess_id : String) → Keeps Sent (alert_slow_query env sess_id)
    unfolding alert_slow_query
    slow-Keeps sess_id = search (keeps_rules, query-Keeps)

    call-Keeps :
        (strategy : Strategy) (sess_id : Option String) → Keeps Sent (call env strategy sess_id)
    unfolding call alert_spilled_query alert_blocked_query alert_too_many_conn
    call-Keeps spilled_query (some sess_id) = slow-Keeps sess_id
    call-Keeps slow_query (some sess_id) = slow-Keeps sess_id
    call-Keeps blocked_query (some sess_id) = search (keeps_rules, query-Keeps)
    call-Keeps too_many_conn none = search (keeps_rules, query-Keeps)
    call-Keeps spilled_query none = Keeps-throw _
    call-Keeps slow_query none = Keeps-throw _
    call-Keeps blocked_query none = Keeps-throw _
    call-Keeps too_many_conn (some sess_id) = Keeps-throw _

    second-Keeps : (xs : List String) → Keeps Sent (second xs)
    second-Keeps [] = Keeps-throw _
    second-Keeps (x ∷ []) = Keeps-throw _
    second-Keeps (x ∷ y ∷ xs) = Keeps-pure _

    remark_by-Keeps :
        (strategy : Strategy) (query_id : String) → Keeps Sent (remark_by env strategy query_id)
    unfolding remark_by
    remark_by-Keeps strategy query_id = search (keeps_rules, second-Keeps, call-Keeps)

    connect-Keeps : Keeps Sent (ask connect env.connect)
    unfolding mails
    connect-Keeps = ask-Keeps connect env.connect refl

    close-Keeps : Keeps Sent (ask close env.close)
    unfolding mails
    close-Keeps = ask-Keeps close env.close refl

    consult-Keeps :
        (strategy : Strategy) (query_id : String) → Keeps Sent (consult env strategy query_id)
    unfolding consult
    consult-Keeps strategy query_id =
        search (keeps_rules, remark_by-Keeps, connect-Keeps, close-Keeps) depth 20

    remark_for-Keeps :
        (o : Option Strategy) (query_id : String) → Keeps Sent (remark_for env o query_id)
    unfolding remark_for
    remark_for-Keeps none query_id = Keeps-pure _
    remark_for-Keeps (some strategy) query_id = consult-Keeps strategy query_id

module _ (env : Env) (opens : (h : History) → env.connect h ≡ return tt)
    (closes : (h : History) → env.close h ≡ return tt) where
  opened :
      (s : State)
      → try_except (do ask connect env.connect; pure true) (λ e. pure false) s
        ≡ (return true, record { trace = s.trace ++ connect ∷ [] })
  unfolding ask pure try_except ◌>>=◌
  opened s = rw (opens s.trace)

  closed :
      (s : State) → ask close env.close s ≡ (return tt, record { trace = s.trace ++ close ∷ [] })
  unfolding ask
  closed s = rw (closes s.trace)

  consult-returns :
      (strategy : Strategy) (query_id : String) (s : State)
      → (r : String) × ((consult env strategy query_id s).0 ≡ return r)
  unfolding consult pure
  consult-returns strategy query_id s =
      let t : State = record { trace = s.trace ++ connect ∷ [] } in
      let asked = try_except (remark_by env strategy query_id) (λ e. pure "") in
      let (r, done) = try_except-returns (remark_by env strategy query_id) "" t in
      (
        r,
        ap (λ o. o.0)
            (bind-of_return _ _ (opened s)
              ∙ bind-of_return asked _ {s = t} {s' = (asked t).1} {a = r}
                  (λ i. (done i, (asked t).1))
              ∙ bind-of_return _ _ (closed (asked t).1)),
      )

  remark_for-returns :
      (o : Option Strategy) (query_id : String) (s : State)
      → (r : String) × ((remark_for env o query_id s).0 ≡ return r)
  unfolding remark_for pure
  remark_for-returns none query_id s = ("", refl)
  remark_for-returns (some strategy) query_id s = consult-returns strategy query_id s

-- If the database can be reached and left, a run with arguments that can be read sends one mail, with
-- these arguments, whatever the statements answer.
pub main-mails :
    (env : Env) (argv : List String) (args : Dict String String)
    → parse_args argv [] ≡ return args
    → ((h : History) → env.connect h ≡ return tt)
    → ((h : History) → env.close h ≡ return tt)
    → (s : State)
    → (remark : String) × (mails (main env argv s).1.trace
        ≡ mails s.trace ++ mail_of args remark ∷ [])
unfolding main send_alert send_mail ask mails
main-mails env argv args parsed opens closes s =
    let strategy = rule_for strategys (Dict.get_or args "RULEDESCRIPTION" "") in
    let id = Dict.get_or args "QUERYID" "" in
    let consulted = remark_for env strategy id in
    let (remark, done) = remark_for-returns env opens closes strategy id s in
    let t = (consulted s).1 in
    (
      remark,
      ap (λ r. mails (with_args env r s).1.trace) parsed
          ∙ ap (λ o. mails o.1.trace)
              (bind-of_return consulted (λ r. send_mail env (mail_of args r)) {s = s} {s' = t}
                {a = remark} (λ i. (done i, t)))
          ∙ mails-append t.trace (post (mail_of args remark) ∷ [])
          ∙ ap (λ k. k ++ mail_of args remark ∷ [])
              ((remark_for-Keeps (mails s.trace) env strategy id).at s refl),
    )

-- If a rule applies and the database cannot be reached, the run ends with an error and no mail.
pub main-loses :
    (env : Env) (argv : List String) (args : Dict String String) (strategy : Strategy)
    (e : Exception) (s : State)
    → parse_args argv [] ≡ return args
    → rule_for strategys (Dict.get_or args "RULEDESCRIPTION" "") ≡ some strategy
    → env.connect s.trace ≡ raise e
    → main env argv s ≡ (raise other_exception, record { trace = s.trace ++ connect ∷ [] })
unfolding main send_alert remark_for consult ask pure throw try_except ◌>>=◌
main-loses env argv args strategy e s parsed rule down =
    ap (λ r. with_args env r s) parsed
    ∙ ap
        (λ o.
          (remark_for env o (Dict.get_or args "QUERYID" "") >>= λ r. send_mail env (mail_of args r))
            s)
        rule
    ∙ rw down
