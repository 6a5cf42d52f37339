-- ===== src/Adapter/Ecs/Batches.antt =====
-- `GetCurrentCounts` of internal/adapter/ecs.go: over a client that knows a table of services and
-- accepts at most ten names, the batches come to one lookup for each requested service.
use ninjascale.Prelude.{
  Bool, true, false, ℕ, zero, suc, ◌≤◌, ◌≡◌, ◌⊎◌, inl, inr, refl, sym, ap, ◌∙◌, Option, none, some,
  List, [], ◌∷◌, ◌++◌, String, str_eq, eq_iff, if◌then◌else◌, ℤ, arith, length, take, drop, lookup,
  insert, lookup-insert, lookup-insert_self, string_key, all, All, All-append, All-map,
  length-take-le, length-drop, take-append-drop, Bool-cases, Option-cases,
}
use mathlib.Core.Path.{subst}
use ninjascale.Adapter.Ecs.{
  EcsService, EcsAdapter, max_services_per_batch, add_services, check_found, describe_batches,
  get_current_counts,
}

abbrev pub Table : Type 0
Table = List (String × ℤ)

-- What the service answers to a batch of names: an entry for each name that it knows.
abbrev pub entry_of : String → Option ℤ → List EcsService → List EcsService
entry_of name none rest = rest
entry_of name (some n) rest = record { service_name = some name; desired_count = n } ∷ rest

abbrev pub answers : Table → List String → List EcsService
answers table [] = []
answers table (name ∷ names) = entry_of name (lookup name table) (answers table names)

-- The documented behaviour of `DescribeServices`, for at most ten names.
abbrev pub DescribesTable : {A : Type 0} → EcsAdapter A → A → Table → Type 0
DescribesTable a cloud table =
    (names : List String)
    → length names ≤ max_services_per_batch
    → a.client.describe_services a.cluster names cloud ≡ some (answers table names)

-- A name on which the result and the table agree.
abbrev pub SameAt : Table → Table → String → Type 0
SameAt table result name = lookup name result ≡ lookup name table

-- The result holds nothing but entries of the table.
abbrev IsPartOf : Table → Table → Type 0
IsPartOf result table = (name : String) → (lookup name result ≡ none) ⊎ SameAt table result name

insert-SameAt :
    (table result : Table) (name other : String) (n : ℤ)
    → lookup name table ≡ some n
    → SameAt table result other
    → SameAt table (insert name n result) other
insert-SameAt table result name other n known h = elim (Bool-cases (str_eq name other)) [
  | inl e ↦
      lookup-insert name other n result
      ∙ ((rw e refl) ∙ (sym known ∙ ap (λ s. lookup s table) ((eq_iff name other).0 e)))
  | inr e ↦ lookup-insert name other n result ∙ ((rw e refl) ∙ h)
]

insert-IsPartOf :
    (table result : Table) (name : String) (n : ℤ)
    → lookup name table ≡ some n
    → IsPartOf result table
    → IsPartOf (insert name n result) table
insert-IsPartOf table result name n known h other = elim (Bool-cases (str_eq name other)) [
  | inl e ↦ inr (
      lookup-insert name other n result
      ∙ ((rw e refl) ∙ (sym known ∙ ap (λ s. lookup s table) ((eq_iff name other).0 e))))
  | inr e ↦ elim (h other) [
    | inl absent ↦ inl (lookup-insert name other n result ∙ ((rw e refl) ∙ absent))
    | inr same ↦ inr (insert-SameAt table result name other n known same)
  ]
]

-- Adding the answers to a batch keeps what agrees with the table and makes the batch agree.
record Extends (table : Table) (names : List String) (result result' : Table) : Type 0 where
  keeps : (name : String) → SameAt table result name → SameAt table result' name
  part : IsPartOf result' table
  covers : All (SameAt table result') names

Extends-cons :
    (table : Table) (name : String) (names : List String) (result middle result' : Table)
    → ((other : String) → SameAt table result other → SameAt table middle other)
    → SameAt table middle name
    → Extends table names middle result'
    → Extends table (name ∷ names) result result'
Extends-cons table name names result middle result' step here e = record {
  keeps = λ other h. e.keeps other (step other h);
  part = e.part;
  covers = (e.keeps name here, e.covers);
}

absent_agrees :
    (table result : Table) (name : String)
    → IsPartOf result table
    → lookup name table ≡ none
    → SameAt table result name
absent_agrees table result name part unknown = elim (part name) [
  | inl absent ↦ absent ∙ sym unknown
  | inr same ↦ same
]

add_services-Extends :
    (table : Table) (names : List String) (result : Table)
    → IsPartOf result table
    → Extends table names result (add_services (answers table names) result)
unfolding add_services
add_services-Extends table [] result part = record { keeps = λ name h. h; part = part; covers = tt }
add_services-Extends table (name ∷ names) result part = elim (Option-cases (lookup name table)) [
  | inl unknown ↦ rw unknown (
      Extends-cons table name names result result _ (λ other h. h)
        (absent_agrees table result name part unknown)
        (add_services-Extends table names result part))
  | inr (n, known) ↦ rw known (
      Extends-cons table name names result (insert name n result) _
        (λ other h. insert-SameAt table result name other n known h)
        (lookup-insert_self name n result ∙ sym known)
        (add_services-Extends table names (insert name n result)
          (insert-IsPartOf table result name n known part)))
]

Extends-append :
    (table : Table) (xs ys : List String) (result middle result' : Table)
    → Extends table xs result middle
    → Extends table ys middle result'
    → Extends table (xs ++ ys) result result'
Extends-append table xs ys result middle result' e f = record {
  keeps = λ name h. f.keeps name (e.keeps name h);
  part = f.part;
  covers =
      All-append (SameAt table result') xs ys
        (All-map (SameAt table middle) (SameAt table result') xs f.keeps e.covers) f.covers;
}

abbrev known : Option ℤ → Bool
known none = false
known (some n) = true

abbrev pub all_known : Table → List String → Bool
all_known table = all (λ name. known (lookup name table))

check_found-eq :
    (table result : Table) (names : List String)
    → All (SameAt table result) names
    → check_found names result ≡ (if all_known table names then some result else none)
unfolding check_found
check_found-eq table result [] h = refl
check_found-eq table result (name ∷ names) h = elim (Option-cases (lookup name table)) [
  | inl e ↦ let q : lookup name result ≡ none = h.0 ∙ e in rw (q, e, check_found) refl
  | inr (n, e) ↦
      let q : lookup name result ≡ some n = h.0 ∙ e in
      rw (q, e, check_found) (check_found-eq table result names h.1)
]

IsPartOf-nil : (table : Table) → IsPartOf [] table
unfolding lookup
IsPartOf-nil table name = inl refl

module _ {A : Type 0} (a : EcsAdapter A) (cloud : A) (table : Table)
    (describes : DescribesTable a cloud table) where
  -- Enough fuel: the loop ends with a result for every name.
  describe_batches-Extends :
      (fuel : ℕ) (names : List String) (result : Table)
      → length names ≤ fuel
      → IsPartOf result table
      → (m : Table) × (describe_batches a fuel names cloud result ≡ some m)
        × Extends table names result m
  unfolding describe_batches
  describe_batches-Extends fuel [] result enough part =
      (result, refl, record { keeps = λ name h. h; part = part; covers = tt })
  describe_batches-Extends zero (x ∷ xs) result enough part = elim enough [ ]
  describe_batches-Extends (suc fuel) (x ∷ xs) result enough part =
      let batch : List String = take 10 (x ∷ xs) in
      let rest : List String = drop 10 (x ∷ xs) in
      let middle : Table = add_services (answers table batch) result in
      let first : Extends table batch result middle =
        add_services-Extends table batch result part in
      let fits : length rest ≤ fuel = omega (arith, length-drop 10 (x ∷ xs)) in
      let (m, e, more) = describe_batches-Extends fuel rest middle fits first.part in
      (
        m,
        rw (describes batch (length-take-le 10 (x ∷ xs)), describe_batches) e,
        subst (λ names. Extends table names result m) (take-append-drop 10 (x ∷ xs))
            (Extends-append table batch rest result middle m first more),
      )

  -- Over a client that answers at most ten names at a time from a table, `GetCurrentCounts` fails
  -- exactly when a requested service is not in the table; otherwise its map shows every requested
  -- service with the count of the table.
  pub get_current_counts_lem :
      (names : List String)
      → (m : Table) × All (SameAt table m) names
        × (get_current_counts a names cloud ≡ (if all_known table names then some m else none))
  unfolding get_current_counts
  get_current_counts_lem [] = ([], tt, refl)
  get_current_counts_lem (x ∷ xs) =
      let (m, e, more) =
        describe_batches-Extends (suc (length xs)) (x ∷ xs) [] (omega arith) (IsPartOf-nil table) in
      (m, more.covers, rw (e, get_current_counts) (check_found-eq table m (x ∷ xs) more.covers))
