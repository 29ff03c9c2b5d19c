-- ===== src/Batch/Counts.antt =====
-- `_record_actual_substrate_counts` of src/web/repository/batch.py with its helpers: the counts that a
-- completion declares, checked for every condition before anything is written.
pub mod Bounds
use perovskite_fabrication_w.Prelude.{
  ℕ, zero, suc, ◌+◌, ◌-◌, String, Option, none, some, List, [], ◌∷◌, ◌++◌, Bool, true, false, not,
  ◌&&◌, ◌||◌, Result, ok, err, Check, ◌>>=◌, ◌>>◌, raise_if, for_each, if◌then◌else◌, ltb, leb,
  ◌==◌, str_eq, any, all, is_none, is_some, map,
}
use perovskite_fabrication_w.Prelude.Int.{ℤ, pos, negsuc, is_nonneg}
use perovskite_fabrication_w.Prelude.Text.{strip}
use perovskite_fabrication_w.Recipe.Stack.{is_empty}
use perovskite_fabrication_w.Batch.Data.{
  Member, Substrate, LayerSummary, RecipeSnapshot, BatchCondition, Shortfall,
}

pub data BatchError : Type 0 where
  counts_missing counts_not_covering too_many_substrates : BatchError
  shortfall_unknown shortfall_duplicate shortfall_blank : ℕ → BatchError
  count_negative shortfall_unfounded shortfall_unexplained : ℕ → BatchError
  no_execution_groups execution_groups_missing : ℕ → BatchError
  too_many_devices layout_missing : BatchError
  status_conflict not_owner cancel_forbidden : BatchError
  preparation_unused execution_empty preparation_open execution_open : BatchError
  actor_unknown key_missing : BatchError

-- Ids among ids.
unfoldable pub mem : ℕ → List ℕ → Bool
mem n [] = false
mem n (x ∷ xs) = x == n || mem n xs

-- A dict with integer keys.
unfoldable pub lookup {ℓ} : {V : Type ℓ} → ℕ → List (ℕ × V) → Option V
lookup k [] = none
lookup k ((j, v) ∷ m) = if j == k then some v else lookup k m

abbrev pub keys {ℓ} : {V : Type ℓ} → List (ℕ × V) → List ℕ
keys [] = []
keys ((k, v) ∷ m) = k ∷ keys m

-- `actual < planned`, `actual > planned`
abbrev pub below : ℤ → ℕ → Bool
below (pos n) planned = ltb n planned
below (negsuc n) planned = true

abbrev pub above : ℤ → ℕ → Bool
above (pos n) planned = ltb planned n
above (negsuc n) planned = false

-- A count that has passed the test for negative numbers.
abbrev pub to_nat : ℤ → ℕ
to_nat (pos n) = n
to_nat (negsuc n) = 0

-- The positive and the negative part of `sum(int(count) for count in counts.values())`.
unfoldable pub sum_pos : List (ℕ × ℤ) → ℕ
sum_pos [] = 0
sum_pos ((k, pos n) ∷ m) = n + sum_pos m
sum_pos ((k, negsuc n) ∷ m) = sum_pos m

unfoldable pub sum_neg : List (ℕ × ℤ) → ℕ
sum_neg [] = 0
sum_neg ((k, pos n) ∷ m) = sum_neg m
sum_neg ((k, negsuc n) ∷ m) = suc n + sum_neg m

-- The 1-based ordinals of the layers that meet a test.
pub ordinals_where : (LayerSummary → Bool) → ℕ → List LayerSummary → List ℕ
ordinals_where p index [] = []
ordinals_where p index (l ∷ ls) =
    let rest = ordinals_where p (suc index) ls in if p l then index ∷ rest else rest

abbrev pub first : List ℕ → List ℕ
first [] = []
first (x ∷ xs) = x ∷ []

-- `_required_layer_ordinals_from_snapshot`
unfoldable pub required_layer_ordinals : RecipeSnapshot → List ℕ
unfolding ordinals_where
required_layer_ordinals s =
    ordinals_where (λ l. l.has_process) 1 s.layers
    ++ (if s.has_deposition_steps
        then first (ordinals_where (λ l. l.is_perovskite) 1 s.layers)
        else [])

-- The loop that normalizes the shortfall explanations.
unfoldable pub normalize_shortfalls :
    List ℕ → List (ℕ × String) → List (ℕ × String) → Result BatchError (List (ℕ × String))
unfolding mem
normalize_shortfalls ids seen [] = ok seen
normalize_shortfalls ids seen ((k, text) ∷ rest) = do
  raise_if (not (mem k ids)) (shortfall_unknown k)
  raise_if (mem k (keys seen)) (shortfall_duplicate k)
  raise_if (str_eq (strip text) "") (shortfall_blank k)
  normalize_shortfalls ids (seen ++ ((k, strip text) ∷ [])) rest

-- The pre-check of one condition.
unfoldable pub precheck : List (ℕ × String) → BatchCondition → ℤ → Check BatchError
precheck explained c actual = do
  let planned = c.planned_substrate_count
  let explained_here = mem c.ident (keys explained)
  let existing = map (λ m. m.layer_ordinal) c.members
  let required = required_layer_ordinals c.recipe_snapshot
  raise_if (not (is_nonneg actual)) (count_negative c.ident)
  raise_if (explained_here && not (below actual planned)) (shortfall_unfounded c.ident)
  raise_if (below actual planned && not explained_here) (shortfall_unexplained c.ident)
  raise_if (above actual planned && is_empty existing) (no_execution_groups c.ident)
  raise_if (above actual planned && any (λ n. not (mem n existing)) required)
      (execution_groups_missing c.ident)

-- `range(start, start + count)`
abbrev pub range : ℕ → ℕ → List ℕ
range start zero = []
range start (suc count) = start ∷ range (suc start) count

-- `_materialize_condition_substrates`
unfoldable pub materialize : ℕ → ℕ → ℕ → Result BatchError (List Substrate)
materialize devices start zero = ok []
materialize devices start (suc count) = do
  raise_if (ltb 9 devices) too_many_devices
  ok (
      map (λ n. record { ordinal = n; device_ordinals = range 1 devices })
        (range start (suc count)))

abbrev pub same_group : Member → Member → Bool
same_group a b =
    a.execution_id == b.execution_id
    && a.layer_ordinal == b.layer_ordinal
    && str_eq a.layer_snapshot_hash b.layer_snapshot_hash

-- `select(...).distinct()`: one member for each execution group
pub groups : List Member → List Member
groups [] = []
groups (m ∷ ms) = let rest = groups ms in if any (same_group m) rest then rest else m ∷ rest

-- The substrates that a group already has at its layer.
abbrev pub has_member : List Member → Member → ℕ → Bool
has_member ms g n =
    any
      (λ m.
        m.execution_id == g.execution_id && m.layer_ordinal == g.layer_ordinal && m.substrate == n)
      ms

pub attach_group : List Member → Member → List ℕ → List Member
attach_group ms g [] = []
attach_group ms g (n ∷ ns) =
    let rest = attach_group ms g ns in
    if has_member ms g n then rest else record g { substrate = n } ∷ rest

-- Each group reads the member rows again, those of the groups before it included.
pub attach_groups : List Member → List Member → List ℕ → List Member
unfolding attach_group
attach_groups ms [] ns = []
attach_groups ms (g ∷ gs) ns =
    let new = attach_group ms g ns in new ++ attach_groups (ms ++ new) gs ns

-- `_attach_substrates_to_condition_executions`: the member rows that are inserted
unfoldable pub attach_substrates : List Member → List ℕ → List Member
unfolding groups attach_groups
attach_substrates ms ns = attach_groups ms (groups ms) ns

-- The deviation row of a condition with a shortfall.
abbrev pub shortfall_row : BatchCondition → ℕ → String → List Shortfall
shortfall_row c n text =
    record {
      condition_id = c.ident;
      description = text;
      planned = c.planned_substrate_count;
      actual = n;
    }
    ∷ []

-- `normalized_shortfalls[condition_id]` for a condition with a shortfall
abbrev pub shortfall_rows :
    List (ℕ × String) → BatchCondition → ℤ → Result BatchError (List Shortfall)
shortfall_rows explained c actual =
    if below actual c.planned_substrate_count
    then (elim (lookup c.ident explained) [
      | none ↦ err key_missing
      | some text ↦ ok (shortfall_row c (to_nat actual) text)
    ])
    else ok []

-- The condition with its declared count and the rows of its new substrates.
abbrev pub extend_condition : BatchCondition → ℕ → List Substrate → BatchCondition
extend_condition c n new = record c {
  actual_substrate_count = some n;
  substrates = c.substrates ++ new;
  members = c.members ++ attach_substrates c.members (map (λ s. s.ordinal) new);
}

-- `_resolve_layout` of the frozen layout
unfoldable pub resolve_layout : BatchCondition → Result BatchError ℕ
resolve_layout c = elim c.layout_devices [ none ↦ err layout_missing | some devices ↦ ok devices ]

-- The substrates of `if actual > planned`
unfoldable pub extra_substrates : BatchCondition → ℕ → Result BatchError (List Substrate)
extra_substrates c n =
    if ltb c.planned_substrate_count n
    then (do
      devices ← resolve_layout c
      materialize devices (c.planned_substrate_count + 1) (n - c.planned_substrate_count))
    else ok []

-- The write pass for one condition: the condition and the deviations that it records.
unfoldable pub write_condition :
    List (ℕ × String) → BatchCondition → ℤ → Result BatchError (BatchCondition × List Shortfall)
write_condition explained c actual = do
  rows ← shortfall_rows explained c actual
  new ← extra_substrates c (to_nat actual)
  ok (extend_condition c (to_nat actual) new, rows)

-- `actual_substrate_counts[condition_id]`
abbrev pub with_count {ℓ} :
    {A : Type ℓ} → List (ℕ × ℤ) → BatchCondition → (ℤ → Result BatchError A) → Result BatchError A
with_count counts c f = elim (lookup c.ident counts) [
  | none ↦ err counts_not_covering
  | some v ↦ f v
]

unfoldable pub precheck_all :
    List (ℕ × ℤ) → List (ℕ × String) → List BatchCondition → Check BatchError
precheck_all counts explained [] = ok tt
precheck_all counts explained (c ∷ cs) =
    with_count counts c (precheck explained c) >> precheck_all counts explained cs

unfoldable pub write_all :
    List (ℕ × ℤ)
    → List (ℕ × String)
    → List BatchCondition
    → Result BatchError (List BatchCondition × List Shortfall)
write_all counts explained [] = ok ([], [])
write_all counts explained (c ∷ cs) = do
  one ← with_count counts c (write_condition explained c)
  rest ← write_all counts explained cs
  ok (one.0 ∷ rest.0, one.1 ++ rest.1)

-- `set(counts) != condition_ids`
unfoldable pub covers : List (ℕ × ℤ) → List ℕ → Bool
unfolding mem
covers counts ids = all (λ k. mem k ids) (keys counts) && all (λ i. mem i (keys counts)) ids

unfoldable pub record_actual_substrate_counts :
    List BatchCondition
    → List (ℕ × ℤ)
    → List (ℕ × String)
    → Result BatchError (List BatchCondition × List Shortfall)
record_actual_substrate_counts conditions counts shortfalls = do
  let ids = map (λ c. c.ident) conditions
  raise_if (is_empty counts) counts_missing
  raise_if (not (covers counts ids)) counts_not_covering
  raise_if (ltb (99 + sum_neg counts) (sum_pos counts)) too_many_substrates
  explained ← normalize_shortfalls ids [] shortfalls
  precheck_all counts explained conditions
  write_all counts explained conditions
