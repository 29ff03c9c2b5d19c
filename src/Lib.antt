-- ===== src/Lib.antt =====
-- A verification library for the perovskite fabrication workflow: the device recipes that a user
-- writes, the flat deposition recipe that a validated process becomes, and the fabrication batches
-- that are run from them.
--
-- Parts
--   Recipe      src/perovskite_bo/device_recipe.py. A pydantic model is a record (Recipe.Data) and a
--               function that validates the raw fields (`validate_layer`, `validate_group`,
--               `validate_perovskite_process`); it returns the stripped model or the first error.
--               Recipe.Stack has `_validate_layer_completeness` and `validate_layer_sequence`,
--               Recipe.Process the deposition process, Recipe.Groups the experimental groups,
--               Recipe.Complete what `validate_device_recipe` asks for on top.
--   Deposition  src/perovskite_bo/recipe.py. DepositionRecipe holds untyped values, so its fields are
--               of a type of values (Deposition.Data); Deposition.Checks is `__post_init__` of a recipe
--               without mbar pressures, fabrication context and device recipe, and Deposition.Flatten
--               is `deposition_recipe_from_process`, which joins the two files.
--   Batch       src/web/repository/batch.py and src/web/operations/batch_lifecycle.py. A batch is one
--               record with its conditions, preparations and executions. Batch.Counts is
--               `_record_actual_substrate_counts` with the rows that it writes, Batch.Lifecycle is
--               `apply_batch_status_update` and `update_batch_status`.
--   Snapshots   src/web/execution_snapshots.py: the validation of the snapshots of solutions and of
--               process operations.
--   Work        the rest of src/web/repository/batch.py that is modelled: the tables of preparations
--               with their uses and of executions with their members, and the deviations. Work.Rows
--               has the statements on tables and what they keep, Work.Preparations and
--               Work.Executions `create_…`, `split_…`, `merge_…` and `update_…` of each,
--               Work.AsPlanned `record_batch_as_planned`, Work.Deviations `create_deviation`, and
--               Work.Runs the sequences of these operations.
--   Identity    src/web/repository/identity.py: users with login throttling, and sessions.
--   Plan        src/web/repository/condition.py. A plan is one record with its conditions, the
--               exceptions for small substrate counts and the layout table. Plan.Conditions is
--               `_validate_plan_conditions`, Plan.Status is `update_plan_status` and what the
--               operations on conditions do to the status, Plan.Exceptions the
--               requests, decisions and invalidations of exceptions.
--   Tests       sample inputs, runs of the models on them, and the theorems applied to them.
--   Prelude     results with errors, lists, sorting, Python's `strip` and sets of texts.
--
-- How the parts interact: a recipe's layers are validated by Recipe.Layer before Recipe.Stack looks
-- at them, so a validated layer has the role of its material. A validated process is flattened to the
-- fields of DepositionRecipe. A batch condition keeps a frozen summary of its recipe, of which the
-- batch reads which layers have a process and whether one is the perovskite layer. A plan gates the
-- start and the completion of fabrication by the number of its batches. A preparation or an execution
-- stores a snapshot that Snapshots validated; the row is validated again when its plan is copied.
--
-- Conventions: an exception is an `err` with the reason, where the texts of messages are left out; a
-- Python `int` is an integer of unbounded size, a finite `float` a decimal number, since the checks
-- only compare it with zero; where an `int` becomes a `float`, the OverflowError of a large one is an
-- error of the model. A database transaction is a function from rows to rows or an error. No fuel
-- is used: every loop is a recursion on a list. Where an operation inserts a row, the primary key
-- that the database gives it is an argument; a theorem that needs a new key says so. The hash of a
-- snapshot is a parameter of Work, any function from snapshots to texts.
--
-- Not modelled: the defaults that pydantic fills in for absent keys, the legacy rewriting of
-- stored JSON, the conversion of mbar pressures, row locks and other concurrency of the database,
-- codes and labels of substrates and devices, the details of audit events, the creation of
-- batches, the rows and checks of the editing of conditions, and the HTTP layer. The validation
-- of a condition snapshot and its hash are one parameter of Plan, a function that may refuse.
pub mod Prelude
pub mod Recipe
pub mod Deposition
pub mod Batch
pub mod Snapshots
pub mod Work
pub mod Identity
pub mod Plan
pub mod Tests
