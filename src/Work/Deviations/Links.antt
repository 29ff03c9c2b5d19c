-- ===== src/Work/Deviations/Links.antt =====
-- What a deviation that is recorded names: a row of the batch that it belongs to.
use perovskite_fabrication_w.Prelude.{
  ℕ, ◌≡◌, sym, ap, Option, none, some, [], ◌∷◌, ◌++◌, false, not, ◌&&◌, ok, ◌>>=◌, ◌>>◌, >>=-eq-ok,
  >>-eq-ok, raise_if, raise_if-eq-ok, is_some, any, count, ltb, ==_iff, str_eq, arith,
}
use perovskite_fabrication_w.Prelude.Text.{strip}
use perovskite_fabrication_w.Prelude.Sets.{contains}
use perovskite_fabrication_w.Batch.Data.{UserRole}
use perovskite_fabrication_w.Work.Data.{Targets, BatchRow, Tables}
use perovskite_fabrication_w.Work.{
  description_blank, category_unknown, severity_unknown, deviation_type_unknown, many_targets,
  superseded_elsewhere, target_elsewhere, is_not_cancelled, batch_for_actor, with_event,
}
use perovskite_fabrication_w.Work.Deviations.{
  deviation_types, allowed_categories, allowed_severities, target_list, superseded_fails,
  is_not_batch, linked_batch, validate_deviation_links, batch_of_preparation, batch_of_execution,
  batch_of_substrate, batch_of_device, batch_of_condition, NewDeviation, deviation_row,
  create_deviation,
}

module _ (now new_id actor : ℕ) (actor_role : Option UserRole) (t : Tables) (d : NewDeviation) where
  abbrev deviated : Tables
  deviated =
      with_event actor "deviation.create" new_id
        (record t { deviations = t.deviations ++ (deviation_row now new_id actor d ∷ []) })

  pub record DeviationDone (t' : Tables) : Type 0 where
    pub linked : validate_deviation_links t d.fabrication_batch_id d.supersedes d.targets ≡ ok tt
    pub written : t' ≡ deviated

  pub create-DeviationDone :
      (t' : Tables) → create_deviation now new_id actor actor_role t d ≡ ok t' → DeviationDone t'
  unfolding create_deviation
  create-DeviationDone t' h =
      let links = validate_deviation_links t d.fabrication_batch_id d.supersedes d.targets in
      let step6 = λ (b : BatchRow). links >> ok deviated in
      let lock = batch_for_actor t d.fabrication_batch_id actor actor_role is_not_cancelled in
      let step4 =
        raise_if (not (contains deviation_types d.deviation_type)) deviation_type_unknown
        >> (lock >>= step6) in
      let step3 =
        raise_if (not (contains allowed_severities d.severity)) severity_unknown >> step4 in
      let step2 =
        raise_if (not (contains allowed_categories d.category)) category_unknown >> step3 in
      let (one, h1) =
        >>-eq-ok (raise_if (str_eq (strip d.description) "") description_blank) step2 h in
      let (two, h2) =
        >>-eq-ok (raise_if (not (contains allowed_categories d.category)) category_unknown) step3
          h1 in
      let (three, h3) =
        >>-eq-ok (raise_if (not (contains allowed_severities d.severity)) severity_unknown) step4
          h2 in
      let (four, h4) =
        >>-eq-ok (raise_if (not (contains deviation_types d.deviation_type)) deviation_type_unknown)
          (lock >>= step6) h3 in
      let (locked, five, h5) = >>=-eq-ok lock step6 h4 in
      let (linked, last) = >>-eq-ok links (ok deviated) h5 in
      let same : deviated ≡ t' = cc in record { linked = linked; written = sym same }

-- A given id names a row of the batch.
abbrev pub NamesRowOf : (ℕ → Option ℕ) → ℕ → Option ℕ → Type 0
NamesRowOf batch_of batch_id none = Unit
NamesRowOf batch_of batch_id (some id) = batch_of id ≡ some batch_id

is_batch :
    (batch_id : ℕ) (found : Option ℕ) → is_not_batch batch_id found ≡ false → found ≡ some batch_id
is_batch batch_id none h = cc
is_batch batch_id (some n) h =
    let same : n ≡ batch_id = (==_iff n batch_id).0 (ground arith) in ap some same

module _ (t : Tables) (batch_id : ℕ) where
  pub record IsLinked (x : Targets) : Type 0 where
    pub preparation : NamesRowOf (batch_of_preparation t) batch_id x.solution_preparation_id
    pub execution : NamesRowOf (batch_of_execution t) batch_id x.process_execution_id
    pub substrate : NamesRowOf (batch_of_substrate t) batch_id x.substrate_id
    pub device : NamesRowOf (batch_of_device t) batch_id x.device_id
    pub condition : NamesRowOf (batch_of_condition t) batch_id x.condition_id

  abbrev targets_of : Option ℕ → Option ℕ → Option ℕ → Option ℕ → Option ℕ → Targets
  targets_of p e s d c = record {
    solution_preparation_id = p;
    process_execution_id = e;
    substrate_id = s;
    device_id = d;
    condition_id = c;
  }

  linked :
      (p e s d c : Option ℕ)
      → ltb 1 (count is_some (p ∷ e ∷ s ∷ d ∷ c ∷ [])) ≡ false
      → (any is_some (p ∷ e ∷ s ∷ d ∷ c ∷ [])
          && is_not_batch batch_id (linked_batch t (targets_of p e s d c)))
        ≡ false
      → IsLinked (targets_of p e s d c)
  unfolding linked_batch
  linked none none none none none one here = record {
    preparation = tt;
    execution = tt;
    substrate = tt;
    device = tt;
    condition = tt;
  }
  linked (some id) none none none none one here = record {
    preparation = is_batch batch_id _ here;
    execution = tt;
    substrate = tt;
    device = tt;
    condition = tt;
  }
  linked none (some id) none none none one here = record {
    preparation = tt;
    execution = is_batch batch_id _ here;
    substrate = tt;
    device = tt;
    condition = tt;
  }
  linked none none (some id) none none one here = record {
    preparation = tt;
    execution = tt;
    substrate = is_batch batch_id _ here;
    device = tt;
    condition = tt;
  }
  linked none none none (some id) none one here = record {
    preparation = tt;
    execution = tt;
    substrate = tt;
    device = is_batch batch_id _ here;
    condition = tt;
  }
  linked none none none none (some id) one here = record {
    preparation = tt;
    execution = tt;
    substrate = tt;
    device = tt;
    condition = is_batch batch_id _ here;
  }
  linked (some i) (some j) s d c one here = absurd (ground arith)
  linked (some i) none (some j) d c one here = absurd (ground arith)
  linked (some i) none none (some j) c one here = absurd (ground arith)
  linked (some i) none none none (some j) one here = absurd (ground arith)
  linked none (some i) (some j) d c one here = absurd (ground arith)
  linked none (some i) none (some j) c one here = absurd (ground arith)
  linked none (some i) none none (some j) one here = absurd (ground arith)
  linked none none (some i) (some j) c one here = absurd (ground arith)
  linked none none (some i) none (some j) one here = absurd (ground arith)
  linked none none none (some i) (some j) one here = absurd (ground arith)

-- A deviation that is recorded names at most rows of its own batch: a preparation, an execution, a
-- condition, the substrate of one of its conditions or the device of such a substrate; and the deviation
-- that it supersedes is of the same batch.
pub create_deviation-IsLinked :
    (now new_id actor : ℕ) (actor_role : Option UserRole) (t t' : Tables) (d : NewDeviation)
    → create_deviation now new_id actor actor_role t d ≡ ok t'
    → IsLinked t d.fabrication_batch_id d.targets
      × (superseded_fails t d.fabrication_batch_id d.supersedes ≡ false)
unfolding validate_deviation_links
create_deviation-IsLinked now new_id actor actor_role t t' d h =
    let x = d.targets in
    let b = d.fabrication_batch_id in
    let checked = (create-DeviationDone now new_id actor actor_role t d t' h).linked in
    let many = ltb 1 (count is_some (target_list x)) in
    let away = any is_some (target_list x) && is_not_batch b (linked_batch t x) in
    let step3 = raise_if away target_elsewhere in
    let step2 = raise_if (superseded_fails t b d.supersedes) superseded_elsewhere >> step3 in
    let (one, h1) = >>-eq-ok (raise_if many many_targets) step2 checked in
    let (parent, h2) =
      >>-eq-ok (raise_if (superseded_fails t b d.supersedes) superseded_elsewhere) step3 h1 in
    (
      linked t b x.solution_preparation_id x.process_execution_id x.substrate_id x.device_id
          x.condition_id (raise_if-eq-ok many many_targets one)
          (raise_if-eq-ok away target_elsewhere h2),
      raise_if-eq-ok (superseded_fails t b d.supersedes) superseded_elsewhere parent,
    )
