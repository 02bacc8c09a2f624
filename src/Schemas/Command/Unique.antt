-- ===== src/Schemas/Command/Unique.antt =====
-- The validator of schemas/command.py for unique step ids, against a plain statement of it.
use executor_service.Common.{
  ◌≤◌, ◌<◌, ◌≡◌, refl, ap, ◌↔◌, true, false, String, List, [], ◌∷◌, some, arith, str_eq, eq_iff,
  length, All,
}
use executor_service.Schemas.Command.{
  ExecutionStep, ExecutionCommand, contains, distinct, step_ids, has_unique_step_ids, validate,
}

-- No two steps have one id.
abbrev pub Distinct : List ExecutionStep → Type 0
Distinct [] = Unit
Distinct (t ∷ ts) = All (λ (u : ExecutionStep). str_eq t.step_id u.step_id ≡ false) ts × Distinct ts

contains-same :
    (x y : String) (xs : List String) → str_eq x y ≡ true → contains x xs ≡ contains y xs
contains-same x y xs e = ap (λ z. contains z xs) ((eq_iff x y).0 e)

contains-distinct : (x : String) (xs : List String) → contains x (distinct xs) ≡ contains x xs
unfolding distinct
contains-distinct x [] = refl
contains-distinct x (y ∷ ys) =
    ground (arith, contains-distinct x ys, contains-distinct y ys, contains-same x y ys)

length-distinct-le : (xs : List String) → length (distinct xs) ≤ length xs
unfolding distinct
length-distinct-le [] = omega arith
length-distinct-le (x ∷ xs) = ground (arith, length-distinct-le xs)

-- A set is as long as the list only if nothing repeats, and the other way round.
distinct-cons :
    (x : String) (xs : List String)
    → length (x ∷ xs) ≡ length (distinct (x ∷ xs))
    → (contains x xs ≡ false) × (length xs ≡ length (distinct xs))
unfolding distinct
distinct-cons x xs h = ground (arith, length-distinct-le xs, contains-distinct x xs)

distinct-cons_iff :
    (x : String) (xs : List String)
    → contains x xs ≡ false
    → length xs ≡ length (distinct xs)
    → length (x ∷ xs) ≡ length (distinct (x ∷ xs))
unfolding distinct
distinct-cons_iff x xs h e = ground (arith, contains-distinct x xs)

contains-step_ids :
    (id : String) (ts : List ExecutionStep)
    → contains id (step_ids ts) ≡ false
    → All (λ (u : ExecutionStep). str_eq id u.step_id ≡ false) ts
unfolding contains step_ids
contains-step_ids id [] h = tt
contains-step_ids id (t ∷ ts) h = (ground arith, contains-step_ids id ts (ground arith))

step_ids-contains :
    (id : String) (ts : List ExecutionStep)
    → All (λ (u : ExecutionStep). str_eq id u.step_id ≡ false) ts
    → contains id (step_ids ts) ≡ false
unfolding contains step_ids
step_ids-contains id [] h = refl
step_ids-contains id (t ∷ ts) h = ground (arith, step_ids-contains id ts h.1)

Distinct_of_length :
    (ts : List ExecutionStep) → length (step_ids ts) ≡ length (distinct (step_ids ts)) → Distinct ts
Distinct_of_length [] h = tt
Distinct_of_length (t ∷ ts) h =
    let (fresh, rest) = distinct-cons t.step_id (step_ids ts) (unfold step_ids in h) in
    (contains-step_ids t.step_id ts fresh, Distinct_of_length ts rest)

length_of_Distinct :
    (ts : List ExecutionStep) → Distinct ts → length (step_ids ts) ≡ length (distinct (step_ids ts))
unfolding step_ids
length_of_Distinct [] h = unfold distinct in refl
length_of_Distinct (t ∷ ts) h =
    distinct-cons_iff t.step_id (step_ids ts) (step_ids-contains t.step_id ts h.0)
      (length_of_Distinct ts h.1)

-- The validator, which compares the number of ids with the size of their set, passes exactly the
-- commands in which no two steps have one id.
pub has_unique_step_ids_iff :
    (c : ExecutionCommand) → (has_unique_step_ids c ≡ true) ↔ Distinct c.steps
unfolding has_unique_step_ids
has_unique_step_ids_iff c = (
  λ h. Distinct_of_length c.steps (ground arith),
  λ d. ground (arith, length_of_Distinct c.steps d),
)

-- A validated command is the command itself, has a step, and has distinct ids.
pub validate-Distinct :
    (c d : ExecutionCommand)
    → validate c ≡ some d
    → (d ≡ c) × (0 < length d.steps) × Distinct d.steps
unfolding validate
validate-Distinct c d h =
    let same : d ≡ c = ground arith in
    let unique : has_unique_step_ids c ≡ true = ground arith in
    (same, rw same (ground arith), rw same ((has_unique_step_ids_iff c).0 unique))
