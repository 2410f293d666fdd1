-- ===== src/Alerts/Rules.antt =====
-- Which rule of gpdb/cron/send_alert.py is chosen for an alert.
use dockerize_and_ansible.Base.{
  ℕ, String, ◌≡◌, refl, sym, ap, All, ◌↔◌, Bool, true, false, ◌&&◌, some, List, [], ◌∷◌, ◌==◌,
  string_eq, nat_eq, arith, Bool-cases, inl, inr,
}
use dockerize_and_ansible.Base.Dict.{Dict}
use dockerize_and_ansible.Alerts.{fold, matches, Strategy, strategys, rule_for}
use Prim.Native.String as Text
use mathlib.Core.List.{Memᴰ}
use mathlib.Core.List.Memᴰ
use mathlib.Core.Path.{subst}

-- Whether a text can match both patterns.
agree : (p q : String) → Bool
unfolding nat_eq fold
agree Text.[] q = true
agree (Text.◌∷◌ c p) Text.[] = true
agree (Text.◌∷◌ c p) (Text.◌∷◌ d q) = fold c == fold d && agree p q

both : (a b : Bool) → (a && b) ≡ true → (a ≡ true) × (b ≡ true)
both true b h = (refl, h)
both false b h = absurd (ground arith)

meet : (a b e : ℕ) → (a == e) ≡ true → (b == e) ≡ true → (a == b) ≡ true
meet a b e p q = ground (arith, p, q)

matches-agree :
    (p q text : String) → matches p text ≡ true → matches q text ≡ true → agree p q ≡ true
unfolding matches agree
matches-agree Text.[] q text mp mq = refl
matches-agree (Text.◌∷◌ c p) Text.[] text mp mq = refl
matches-agree (Text.◌∷◌ c p) (Text.◌∷◌ d q) Text.[] mp mq = absurd (ground arith)
matches-agree (Text.◌∷◌ c p) (Text.◌∷◌ d q) (Text.◌∷◌ e text) mp mq =
    let (cp, rest) = both (fold c == fold e) (matches p text) mp in
    let (dq, rest') = both (fold d == fold e) (matches q text) mq in
    rw (meet (fold c) (fold d) (fold e) cp dq) (matches-agree p q text rest rest')

-- What holds for the rules: no text matches two of them.
Disjoint : Dict String Strategy → Type 0
Disjoint [] = Unit
Disjoint ((c, s) ∷ rules) = All (λ rule. agree c rule.0 ≡ false) rules × Disjoint rules

All-at {ℓ κ} : {A : Type ℓ} (P : A → Type κ) (xs : List A) (x : A) → All P xs → Memᴰ x xs → P x
All-at P [] x all member = absurd (Memᴰ.not-nil member)
All-at P (y ∷ ys) x (first, all) member = elim (Memᴰ.cases_cons member) [
  | inl e ↦ subst P (sym e) first
  | inr later ↦ All-at P ys x all later
]

rule_for-chosen :
    (rules : Dict String Strategy) (description : String) (s : Strategy)
    → rule_for rules description ≡ some s
    → (c : String) × Memᴰ (c, s) rules × (matches c description ≡ true)
unfolding rule_for
rule_for-chosen [] description s e = absurd (ground arith)
rule_for-chosen ((c, strategy) ∷ rules) description s e =
    elim (Bool-cases (matches c description)) [
      | inl hit ↦
          let same : strategy ≡ s = ground (arith, hit) in
          (c, Memᴰ.head (λ i. (c, sym same i)), hit)
      | inr miss ↦
          let (c', member, hit) = rule_for-chosen rules description s (ground arith) in
          (c', Memᴰ.tail member, hit)
    ]

rule_for_unique :
    (rules : Dict String Strategy) (description c : String) (s : Strategy)
    → Disjoint rules
    → Memᴰ (c, s) rules
    → matches c description ≡ true
    → rule_for rules description ≡ some s
unfolding rule_for Disjoint
rule_for_unique [] description c s disjoint member hit = absurd (Memᴰ.not-nil member)
rule_for_unique ((c', s') ∷ rules) description c s (apart, disjoint) member hit =
    elim (Memᴰ.cases_cons member) [
      | inl e ↦
          let at : matches c' description ≡ true =
            subst (λ t. matches t description ≡ true) (ap (λ p. p.0) e) hit in
          let same : s' ≡ s = ap (λ p. p.1) (sym e) in rw at (ap some same)
      | inr later ↦ elim (Bool-cases (matches c' description)) [
        | inl clash ↦ absurd (
            ground (
              arith,
              matches-agree c' c description clash hit,
              All-at (λ rule. agree c' rule.0 ≡ false) rules (c, s) apart later,
            ))
        | inr miss ↦ rw miss (rule_for_unique rules description c s disjoint later hit)
      ]
    ]

strategys-Disjoint : Disjoint strategys
unfolding Disjoint agree fold nat_eq
strategys-Disjoint = ((refl, (refl, (refl, tt))), ((refl, (refl, tt)), ((refl, tt), (tt, tt))))

-- A strategy is chosen for an alert just if the text of one of its rules starts the description, but
-- for the case of letters: the order of the rules does not matter.
pub rule_for_iff :
    (description : String) (s : Strategy)
    → (rule_for strategys description ≡ some s)
      ↔ ((c : String) × Memᴰ (c, s) strategys × (matches c description ≡ true))
rule_for_iff description s = (
  rule_for-chosen strategys description s,
  λ (c, member, hit). rule_for_unique strategys description c s strategys-Disjoint member hit,
)
