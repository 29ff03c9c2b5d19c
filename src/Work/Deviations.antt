-- ===== src/Work/Deviations.antt =====
-- The deviations of a batch (src/web/repository/batch.py): `create_deviation` and the checks of what a
-- deviation names.
pub mod Links
use perovskite_fabrication_w.Prelude.{
  ℕ, String, Option, none, some, List, [], ◌∷◌, ◌++◌, Bool, true, false, not, ◌&&◌, ◌||◌, Result,
  ok, err, Check, ◌>>=◌, ◌>>◌, raise_if, if◌then◌else◌, ltb, ◌==◌, str_eq, is_some, any, count, map,
}
use perovskite_fabrication_w.Prelude.Text.{strip}
use perovskite_fabrication_w.Prelude.Sets.{contains}
use perovskite_fabrication_w.Batch.Data.{UserRole}
use perovskite_fabrication_w.Work.Data.{Targets, DeviationRow, Tables}
use perovskite_fabrication_w.Work.Rows.{find_row}
use perovskite_fabrication_w.Work.{
  WorkError, description_blank, category_unknown, severity_unknown, deviation_type_unknown,
  many_targets, superseded_elsewhere, target_elsewhere, is_not_cancelled, batch_for_actor,
  with_event,
}

-- DEVIATION_TYPES
abbrev pub deviation_types : List String
deviation_types = "general" ∷ "fabrication_shortfall" ∷ "measurement_shortfall" ∷ []

abbrev pub allowed_categories : List String
allowed_categories =
    "process" ∷ "material" ∷ "equipment" ∷ "substrate" ∷ "device" ∷ "operator" ∷ "other" ∷ []

abbrev pub allowed_severities : List String
allowed_severities = "info" ∷ "warning" ∷ "error" ∷ "critical" ∷ []

-- The ids that are given, in the order of the branches.
abbrev pub target_list : Targets → List (Option ℕ)
target_list x =
    x.solution_preparation_id ∷ x.process_execution_id ∷ x.substrate_id ∷ x.device_id
    ∷ x.condition_id ∷ []

-- A scalar query: `none` where no row matches.
abbrev pub then_row {ℓ κ} : {A : Type ℓ} {B : Type κ} → Option A → (A → Option B) → Option B
then_row none f = none
then_row (some a) f = f a

abbrev pub batch_of_condition : Tables → ℕ → Option ℕ
batch_of_condition t id =
    then_row (find_row (λ c. c.ident) id t.conditions) (λ c. some c.fabrication_batch_id)

abbrev pub batch_of_substrate : Tables → ℕ → Option ℕ
batch_of_substrate t id =
    then_row (find_row (λ s. s.ident) id t.substrates)
      (λ s. batch_of_condition t s.batch_condition_id)

abbrev pub batch_of_device : Tables → ℕ → Option ℕ
batch_of_device t id =
    then_row (find_row (λ d. d.ident) id t.devices) (λ d. batch_of_substrate t d.substrate_id)

abbrev pub batch_of_preparation : Tables → ℕ → Option ℕ
batch_of_preparation t id =
    then_row (find_row (λ p. p.ident) id t.preparations) (λ p. some p.fabrication_batch_id)

abbrev pub batch_of_execution : Tables → ℕ → Option ℕ
batch_of_execution t id =
    then_row (find_row (λ e. e.ident) id t.executions) (λ e. some e.fabrication_batch_id)

-- `linked_batch`: the first id that is given decides the query.
unfoldable pub linked_batch : Tables → Targets → Option ℕ
linked_batch t x = elim x.solution_preparation_id [
  | some id ↦ batch_of_preparation t id
  | none ↦ elim x.process_execution_id [
    | some id ↦ batch_of_execution t id
    | none ↦ elim x.substrate_id [
      | some id ↦ batch_of_substrate t id
      | none ↦ elim x.device_id [
        | some id ↦ batch_of_device t id
        | none ↦ then_row x.condition_id (batch_of_condition t)
      ]
    ]
  ]
]

-- `batch is None or batch != fabrication_batch_id`
abbrev pub is_not_batch : ℕ → Option ℕ → Bool
is_not_batch batch_id none = true
is_not_batch batch_id (some n) = not (n == batch_id)

-- The parent deviation is of another batch, or there is none.
abbrev pub superseded_fails : Tables → ℕ → Option ℕ → Bool
superseded_fails t batch_id none = false
superseded_fails t batch_id (some id) =
    is_not_batch batch_id
      (then_row (find_row (λ d. d.ident) id t.deviations) (λ d. some d.fabrication_batch_id))

unfoldable pub validate_deviation_links : Tables → ℕ → Option ℕ → Targets → Check WorkError
unfolding linked_batch
validate_deviation_links t batch_id supersedes x = do
  raise_if (ltb 1 (count is_some (target_list x))) many_targets
  raise_if (superseded_fails t batch_id supersedes) superseded_elsewhere
  raise_if (any is_some (target_list x) && is_not_batch batch_id (linked_batch t x))
      target_elsewhere

-- The arguments of a deviation.
pub record NewDeviation : Type 0 where
  pub fabrication_batch_id : ℕ
  pub category : String
  pub severity : String
  pub description : String
  pub deviation_type : String
  pub supersedes : Option ℕ
  pub targets : Targets

abbrev pub deviation_row : ℕ → ℕ → ℕ → NewDeviation → DeviationRow
deviation_row now new_id actor d = record {
  ident = new_id;
  fabrication_batch_id = d.fabrication_batch_id;
  category = d.category;
  severity = d.severity;
  deviation_type = d.deviation_type;
  description = strip d.description;
  recorded_by = actor;
  recorded_at = now;
  supersedes = d.supersedes;
  targets = d.targets;
}

unfoldable pub create_deviation :
    ℕ → ℕ → ℕ → Option UserRole → Tables → NewDeviation → Result WorkError Tables
unfolding contains
create_deviation now new_id actor actor_role t d = do
  raise_if (str_eq (strip d.description) "") description_blank
  raise_if (not (contains allowed_categories d.category)) category_unknown
  raise_if (not (contains allowed_severities d.severity)) severity_unknown
  raise_if (not (contains deviation_types d.deviation_type)) deviation_type_unknown
  locked ← batch_for_actor t d.fabrication_batch_id actor actor_role is_not_cancelled
  validate_deviation_links t d.fabrication_batch_id d.supersedes d.targets
  ok (
      with_event actor "deviation.create" new_id
        (record t { deviations = t.deviations ++ (deviation_row now new_id actor d ∷ []) }))
