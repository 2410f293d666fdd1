-- ===== src/Sanitization/Parse/Tracks.antt =====
-- What a prefix and its host name lead to, while the file of secrets is read.
use dockerize_and_ansible.Base.{
  ℕ, ◌<◌, String, ◌≡◌, ◌⊎◌, inl, inr, Bool, true, false, ◌&&◌, ◌||◌, Option, none, some, [], ◌==◌,
  if◌then◌else◌, string_eq, nat_eq, arith, Bool-cases, Option-cases, ==_refl,
}
use dockerize_and_ansible.Base.Dict
use dockerize_and_ansible.Base.Dict.{Dict, get-put, has-put, has-get, has-true-get}
use dockerize_and_ansible.Sanitization.Parse.{
  Line, Parsed, ensure, entry_at, put_field, copy_reference,
}
use mathlib.Core.Path.{subst}
use dockerize_and_ansible.Sanitization.Parse.Reading.{is_apart}

abbrev pub field_at : Parsed → Option ℕ → String → Option String
field_at m none field = none
field_at m (some a) field = Dict.get (entry_at m a) field

entries-put :
    (entries : Dict ℕ (Dict String String)) (a b : ℕ) (entry : Dict String String)
    → Dict.get_or (Dict.put entries a entry) b []
      ≡ (if a == b then entry else Dict.get_or entries b [])
unfolding Dict.get_or
entries-put entries a b entry = ground (arith, get-put entries a b entry)

module _ (prefix host field : String) where
  -- The mapping between two lines: addresses below `fresh` are in use, no third name shares the
  -- entry of `prefix`, which holds `found` for the field, and `host` shares it once it is bound.
  pub record Tracks (found : Option String) (bound : Bool) (m : Parsed) : Type 0 where
    pub below : (name : String) (a : ℕ) → Dict.get m.names name ≡ some a → a < m.fresh
    pub alone :
        (name : String) (a : ℕ)
        → Dict.get m.names name ≡ some a
        → Dict.get m.names prefix ≡ some a
        → (name ≡ prefix) ⊎ (name ≡ host)
    pub holds : field_at m (Dict.get m.names prefix) field ≡ found
    pub shares :
        bound ≡ true
        → (a : ℕ) × (Dict.get m.names prefix ≡ some a) × (Dict.get m.names host ≡ some a)

  pub ensure-Tracks :
      (found : Option String) (bound : Bool) (m : Parsed) (name : String)
      → (name == host) ≡ false
      → Tracks found bound m
      → Tracks found bound (ensure name m)
  unfolding ensure entry_at Dict.get_or Dict.get
  ensure-Tracks found bound m name other t = elim (Bool-cases (Dict.has m.names name)) [
    | inl present ↦ rw present t
    | inr absent ↦
        let there : (n : String)
            → Dict.get (Dict.put m.names name m.fresh) n
              ≡ (if name == n then some m.fresh else Dict.get m.names n) =
          λ n. get-put m.names name n m.fresh in
        let new : Dict.get m.names name ≡ none = has-get m.names name absent in
        rw absent (record {
          below = λ n a e. ground (arith, there n, t.below n a);
          alone = λ n a e f. elim (Bool-cases (name == n)) [
            | inl p ↦ inl (ground (arith, there n, there prefix, t.below prefix a))
            | inr p ↦
                t.alone n a (ground (arith, there n))
                  (ground (arith, there n, there prefix, t.below n a))
          ];
          holds = elim (Bool-cases (name == prefix)) [
            | inl this_one ↦
                let at_prefix : name ≡ prefix = ground arith in
                let missing : Dict.get m.names prefix ≡ none =
                  subst (λ n. Dict.get m.names n ≡ none) at_prefix new in
                let before : none ≡ found =
                  subst (λ o. field_at m o field ≡ found) missing t.holds in
                rw
                  (
                    there prefix,
                    this_one,
                    entries-put m.entries m.fresh m.fresh [],
                    ==_refl m.fresh,
                  )
                  before
            | inr another ↦ elim (Option-cases (Dict.get m.names prefix)) [
              | inl missing ↦
                  rw (there prefix, another, missing)
                    (subst (λ o. field_at m o field ≡ found) missing t.holds)
              | inr (a, at) ↦
                  let apart : (m.fresh == a) ≡ false = ground (arith, t.below prefix a at) in
                  rw (there prefix, another, at, entries-put m.entries m.fresh a [], apart)
                    (subst (λ o. field_at m o field ≡ found) at t.holds)
            ]
          ];
          shares = λ b.
              let (a, at, at_host) = t.shares b in
              (a, ground (arith, there prefix), ground (arith, there host));
        })
  ]

  -- Another name leads to another entry.
  elsewhere :
      (found : Option String) (bound : Bool) (m : Parsed) (name : String) (a b : ℕ)
      → (name == host) ≡ false
      → (name == prefix) ≡ false
      → Dict.get m.names name ≡ some a
      → Dict.get m.names prefix ≡ some b
      → Tracks found bound m
      → (a == b) ≡ false
  elsewhere found bound m name a b other another at at_prefix t = elim (Bool-cases (a == b)) [
    | inr different ↦ different
    | inl e ↦ elim (t.alone name a at (ground (arith, e, at_prefix))) [
      | inl p ↦ absurd (ground (arith, p, another))
      | inr p ↦ absurd (ground (arith, p, other))
    ]
  ]

  pub put_field-Tracks :
      (found : Option String) (bound : Bool) (m : Parsed) (l : Line) (a : ℕ)
      → Dict.get m.names l.prefix ≡ some a
      → (l.prefix == host) ≡ false
      → Tracks found bound m
      → Tracks
          (if l.prefix == prefix && l.field == field then some l.key else found)
          bound
          (put_field l m)
  unfolding put_field entry_at
  put_field-Tracks found bound m l a at other t = rw at (record {
    below = t.below;
    alone = t.alone;
    holds = elim (Bool-cases (l.prefix == prefix)) [
      | inl this_one ↦
          let at_prefix : Dict.get m.names prefix ≡ some a = ground (arith, at, this_one) in
          let before : Dict.get (Dict.get_or m.entries a []) field ≡ found =
            subst (λ o. field_at m o field ≡ found) at_prefix t.holds in
          rw (
            at_prefix,
            this_one,
            entries-put m.entries a a (Dict.put (Dict.get_or m.entries a []) l.field l.key),
            ==_refl a,
            get-put (Dict.get_or m.entries a []) l.field field l.key,
            before,
          )
      | inr another ↦ elim (Option-cases (Dict.get m.names prefix)) [
        | inl missing ↦
            rw (missing, another) (subst (λ o. field_at m o field ≡ found) missing t.holds)
        | inr (b, at_prefix) ↦
            rw
              (
                at_prefix,
                another,
                entries-put m.entries a b (Dict.put (Dict.get_or m.entries a []) l.field l.key),
                elsewhere found bound m l.prefix a b other another at at_prefix t,
              )
              (subst (λ o. field_at m o field ≡ found) at_prefix t.holds)
      ]
    ];
    shares = t.shares;
  })

  pub copy_reference-Tracks :
      (found : Option String) (bound : Bool) (m : Parsed) (l : Line) (a : ℕ)
      → Dict.get m.names l.prefix ≡ some a
      → is_apart prefix host l ≡ true
      → (l.field == "HOSTNAME") ≡ true
      → Tracks found bound m
      → Tracks found (bound || l.prefix == prefix) (copy_reference l m)
  unfolding copy_reference entry_at
  copy_reference-Tracks found bound m l a at is_it hostname t =
      let there : (n : String)
          → Dict.get (Dict.put m.names l.value a) n
            ≡ (if l.value == n then some a else Dict.get m.names n) =
        λ n. get-put m.names l.value n a in
      let still : (l.value == prefix) ≡ false = ground arith in
      rw at (record {
        below = λ n b e. ground (arith, there n, t.below n b, t.below l.prefix a);
        alone = λ n b e f. elim (Bool-cases (l.value == n)) [
          | inr another ↦ t.alone n b (ground (arith, there n)) (ground (arith, there prefix))
          | inl this_one ↦
              let same : (a == b) ≡ true = ground (arith, there n) in
              elim (Bool-cases (l.prefix == prefix)) [
                | inl own ↦ inr (ground arith)
                | inr foreign ↦ absurd (
                    ground (
                      arith,
                      same,
                      elsewhere found bound m l.prefix a b (ground arith) foreign at
                          (ground (arith, there prefix)) t,
                    ))
              ]
        ];
        holds = rw (there prefix, still) t.holds;
        shares = λ b. elim (Bool-cases (l.prefix == prefix)) [
          | inl own ↦ (a, ground (arith, there prefix, at), ground (arith, there host))
          | inr foreign ↦
              let (c, at_prefix, at_host) = t.shares (ground arith) in
              (c, ground (arith, there prefix), ground (arith, there host))
        ];
      })
