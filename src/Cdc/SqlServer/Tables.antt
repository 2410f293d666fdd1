-- ===== src/Cdc/SqlServer/Tables.antt =====
-- The differences of the tables to synchronise and the tracked ones, as statements of
-- `apply_sqlserver_cdc_changes`.
use dockerize_and_ansible.Base.{
  String, ◌<>◌, ◌≡◌, refl, ◌∙◌, sym, ap, true, false, not, ◌&&◌, ◌||◌, List, [], ◌∷◌, ◌++◌, All,
  All-append, map, keep, minus, update, contains, contains-keep, contains-update, arith, ◌==◌,
  ==_refl, string_eq, triple_eq, option_eq, Bool-cases, inl, inr,
}
use mathlib.Core.Path.{subst}
use dockerize_and_ansible.Cdc.State.{Datasource, Query, enable_table, disable_table}
use dockerize_and_ansible.Cdc.SqlServer.{table_name}

-- The table of a name in the schema that the statements write.
abbrev pub dbo : String → String
dbo name = "dbo." <> name

-- The tables that are tracked once the database has carried out the statements, in their order.
abbrev pub tracked_after : List Query → List String → List String
tracked_after [] tables = tables
tracked_after (enable_table database name ∷ sent) tables = tracked_after sent (dbo name ∷ tables)
tracked_after (disable_table database name ∷ sent) tables =
    tracked_after sent (keep (λ t. not (t == dbo name)) tables)
tracked_after (_ ∷ sent) tables = tracked_after sent tables

-- A statement for the database that enables a table that is to be synchronised and not tracked, or
-- disables one that is tracked and not to be synchronised.
abbrev pub IsNeeded : Datasource → List String → Query → Type 0
IsNeeded db tracked (enable_table database name) =
    (database ≡ db.database)
    × (contains db.tables (dbo name) ≡ true)
    × (contains tracked (dbo name) ≡ false)
IsNeeded db tracked (disable_table database name) =
    (database ≡ db.database)
    × (contains db.tables (dbo name) ≡ false)
    × (contains tracked (dbo name) ≡ true)
IsNeeded db tracked _ = ⊥

-- All tables of a list stand in the schema, and the last part of each is its name.
abbrev pub InSchema : List String → Type 0
InSchema tables = (x : String) → contains tables x ≡ true → dbo (table_name x) ≡ x

abbrev pub enabling : Datasource → List String → List Query
enabling db xs = map (λ x. enable_table db.database (table_name x)) xs

abbrev pub disabling : Datasource → List String → List Query
disabling db xs = map (λ x. disable_table db.database (table_name x)) xs

tail_InSchema : (x : String) (xs : List String) → InSchema (x ∷ xs) → InSchema xs
tail_InSchema x xs h y there = h y (ground (arith, there))

tracked_after-append :
    (p q : List Query) (ts : List String)
    → tracked_after (p ++ q) ts ≡ tracked_after q (tracked_after p ts)
tracked_after-append [] q ts = refl
tracked_after-append (enable_table database name ∷ p) q ts = tracked_after-append p q _
tracked_after-append (disable_table database name ∷ p) q ts = tracked_after-append p q _
tracked_after-append (_ ∷ p) q ts = tracked_after-append p q ts

module _ (db : Datasource) (t : String) where
  contains-enabling :
      (xs ts : List String)
      → InSchema xs
      → contains (tracked_after (enabling db xs) ts) t ≡ (contains xs t || contains ts t)
  contains-enabling [] ts h = refl
  contains-enabling (x ∷ xs) ts h =
      let rest = contains-enabling xs (x ∷ ts) (tail_InSchema x xs h) in
      subst
        (λ y.
          contains (tracked_after (enabling db xs) (y ∷ ts)) t
          ≡ (contains (x ∷ xs) t || contains ts t))
        (sym (h x (ground (arith, ==_refl x)))) (ground (arith, rest))

  contains-disabling :
      (xs ts : List String)
      → InSchema xs
      → contains (tracked_after (disabling db xs) ts) t ≡ (contains ts t && not (contains xs t))
  contains-disabling [] ts h = ground arith
  contains-disabling (x ∷ xs) ts h =
      let kept = keep (λ u. not (u == x)) ts in
      let rest = contains-disabling xs kept (tail_InSchema x xs h) in
      subst
        (λ y.
          contains (tracked_after (disabling db xs) (keep (λ u. not (u == y)) ts)) t
          ≡ (contains ts t && not (contains (x ∷ xs) t)))
        (sym (h x (ground (arith, ==_refl x))))
        (ground (arith, rest, contains-keep (λ u. not (u == x)) ts t))

pub map-InSchema :
    (names : List String)
    → ((n : String) → contains names n ≡ true → table_name (dbo n) ≡ n)
    → InSchema (map dbo names)
map-InSchema [] h x there = absurd (ground (arith, there))
map-InSchema (n ∷ names) h x there = elim (Bool-cases (x == dbo n)) [
  | inl same ↦
      let is : x ≡ dbo n = ground (arith, same) in
      ap (λ y. dbo (table_name y)) is ∙ ap dbo (h n (ground (arith, ==_refl n))) ∙ sym is
  | inr differ ↦
      map-InSchema names (λ m among. h m (ground (arith, among))) x (ground (arith, there, differ))
]

minus-contains :
    (xs ys : List String) (x : String)
    → contains (minus xs ys) x ≡ (contains xs x && not (contains ys x))
minus-contains xs ys x = contains-keep (λ y. not (contains ys y)) xs x

each-IsNeeded :
    (db : Datasource) (tracked xs : List String) (f : String → Query)
    → ((x : String) → contains xs x ≡ true → IsNeeded db tracked (f x))
    → All (IsNeeded db tracked) (map f xs)
each-IsNeeded db tracked [] f h = tt
each-IsNeeded db tracked (x ∷ xs) f h = (
  h x (ground (arith, ==_refl x)),
  each-IsNeeded db tracked xs f (λ y there. h y (ground (arith, there))),
)

difference :
    (xs ys : List String) (x : String)
    → contains (minus (update [] xs) (update [] ys)) x ≡ (contains xs x && not (contains ys x))
difference xs ys x =
    minus-contains (update [] xs) (update [] ys) x
    ∙ ground (arith, contains-update [] xs x, contains-update [] ys x)

module _ (db : Datasource) (tracked : List String) (synced_in : InSchema db.tables)
    (tracked_in : InSchema tracked) where
  abbrev pub to_enable : List String
  to_enable = minus (update [] db.tables) (update [] tracked)

  abbrev pub to_disable : List String
  to_disable = minus (update [] tracked) (update [] db.tables)

  enable_in : InSchema to_enable
  enable_in x there = synced_in x (ground (arith, there, difference db.tables tracked x))

  disable_in : InSchema to_disable
  disable_in x there = tracked_in x (ground (arith, there, difference tracked db.tables x))

  -- What the statements leave tracked.
  pub statements-covers :
      (t : String)
      → contains (tracked_after (enabling db to_enable ++ disabling db to_disable) tracked) t
        ≡ contains db.tables t
  statements-covers t =
      ap (λ l. contains l t)
        (tracked_after-append (enabling db to_enable) (disabling db to_disable) tracked)
      ∙ contains-disabling db t to_disable _ disable_in
      ∙ ground (
        arith,
        contains-enabling db t to_enable tracked enable_in,
        difference db.tables tracked t,
        difference tracked db.tables t,
      )

  enable-IsNeeded :
      (x : String)
      → contains to_enable x ≡ true
      → IsNeeded db tracked (enable_table db.database (table_name x))
  enable-IsNeeded x there =
      let is = sym (enable_in x there) in
      let found = difference db.tables tracked x in
      (
        refl,
        subst (λ y. contains db.tables y ≡ true) is (ground (arith, there, found)),
        subst (λ y. contains tracked y ≡ false) is (ground (arith, there, found)),
      )

  disable-IsNeeded :
      (x : String)
      → contains to_disable x ≡ true
      → IsNeeded db tracked (disable_table db.database (table_name x))
  disable-IsNeeded x there =
      let is = sym (disable_in x there) in
      let found = difference tracked db.tables x in
      (
        refl,
        subst (λ y. contains db.tables y ≡ false) is (ground (arith, there, found)),
        subst (λ y. contains tracked y ≡ true) is (ground (arith, there, found)),
      )

  pub statements-IsNeeded :
      All (IsNeeded db tracked) (enabling db to_enable ++ disabling db to_disable)
  statements-IsNeeded =
      All-append (IsNeeded db tracked) (enabling db to_enable) (disabling db to_disable)
        (each-IsNeeded db tracked to_enable _ enable-IsNeeded)
        (each-IsNeeded db tracked to_disable _ disable-IsNeeded)
