-- ===== src/Plan/Conditions/Sound.antt =====
-- What a plan that passes the checks for approval or a later status has.
use perovskite_fabrication_w.Prelude.{
  ◌*◌, ◌≤◌, String, Option, some, List, [], ◌∷◌, true, false, ◌≡◌, ◌⊎◌, inl, inr, refl, ap, ◌∙◌,
  arith, ok, ◌>>◌, raise_if, >>-eq-ok, raise_if_iff, for_each, for_each-eq-ok, All, All-map,
  All-keep_iff, str_eq, eq_iff, Option-cases, Bool-cases, keep,
}
use perovskite_fabrication_w.Recipe.Stack.{is_empty}
use perovskite_fabrication_w.Plan.Data.{
  PlanStatus, ExceptionDecision, Condition, SubstrateException, Plan, DeviceLayout, decision_eq,
}
use perovskite_fabrication_w.Plan.Conditions.{
  no_conditions, check_roles, check_layout, check_condition, check_exception, check_plan, is_active,
  is_hash, is_low, needs_approval, get_device_layout, same_layout,
}

-- A condition that nobody has to review, whose hash is that of its validated recipe, and whose
-- device count is that of its substrates on the layout it was frozen with.
pub record IsConsistent {Snapshot : Type 0} (hash_of : Snapshot → Option String)
    (layouts : List DeviceLayout) (c : Condition Snapshot) : Type 0 where
  pub reviewed : c.requires_manual_review ≡ false
  pub hashed : hash_of c.recipe_snapshot ≡ some c.canonical_hash
  pub layout : DeviceLayout
  pub listed :
      (frozen : DeviceLayout) × (c.device_layout_snapshot ≡ some frozen)
      × (get_device_layout layouts c.device_layout_code frozen.version ≡ some layout)
      × (same_layout frozen layout ≡ true)
  pub some_substrate : 1 ≤ c.planned_substrate_count
  pub devices : c.expected_device_count ≡ c.planned_substrate_count * layout.devices_per_substrate

-- The only active exception of the condition is approved, for the hash that it has now.
pub record IsExcepted {Snapshot : Type 0} (exceptions : List SubstrateException)
    (c : Condition Snapshot) : Type 0 where
  pub exception : SubstrateException
  pub only : keep (is_active c.ident) exceptions ≡ exception ∷ []
  pub is_approved : decision_eq exception.decision ExceptionDecision.approved ≡ true
  pub is_current : is_hash exception.approved_condition_hash c.canonical_hash ≡ true

module _ {Snapshot : Type 0} (hash_of : Snapshot → Option String)
    (layouts : List DeviceLayout) where
  check_condition-IsConsistent :
      (c : Condition Snapshot)
      → check_condition hash_of layouts c ≡ ok tt
      → IsConsistent hash_of layouts c
  unfolding check_condition check_layout
  check_condition-IsConsistent c h = elim (Option-cases (hash_of c.recipe_snapshot)) [
    | inl refused ↦ absurd (ground arith)
    | inr (hash, hashed) ↦ elim (Option-cases c.device_layout_snapshot) [
      | inl unfrozen ↦ absurd (ground arith)
      | inr (frozen, f) ↦
          elim (Option-cases (get_device_layout layouts c.device_layout_code frozen.version)) [
            | inl gone ↦ absurd (ground arith)
            | inr (layout, l) ↦ record {
              reviewed = ground arith;
              hashed =
                  let same : str_eq hash c.canonical_hash ≡ true = ground arith in
                  hashed ∙ ap some ((eq_iff hash c.canonical_hash).0 same);
              layout = layout;
              listed = (frozen, f, l, ground arith);
              some_substrate = ground arith;
              devices = ground arith;
            }
          ]
    ]
  ]

check_exception-IsExcepted :
    {Snapshot : Type 0} (target : PlanStatus) (c : Condition Snapshot)
    (exceptions : List SubstrateException)
    → needs_approval target ≡ true
    → check_exception target c (keep (is_active c.ident) exceptions) ≡ ok tt
    → IsExcepted exceptions c
unfolding check_exception
check_exception-IsExcepted target c exceptions n h = go (keep (is_active c.ident) exceptions) refl h
  where
    go :
        (active : List SubstrateException)
        → keep (is_active c.ident) exceptions ≡ active
        → check_exception target c active ≡ ok tt
        → IsExcepted exceptions c
    go [] e k = absurd (ground arith)
    go (x ∷ []) e k = record {
      exception = x;
      only = e;
      is_approved = ground arith;
      is_current = ground arith;
    }
    go (x ∷ y ∷ rest) e k = absurd (ground arith)

-- A plan that can be approved, released, run or completed: it has conditions in the roles of its
-- plan type, all of them consistent, and those with fewer than three substrates are excepted.
pub record IsReady {Snapshot : Type 0} (hash_of : Snapshot → Option String) (p : Plan Snapshot)
    : Type 0 where
  pub some_condition : is_empty p.conditions ≡ false
  pub roles : check_roles p.plan_type p.conditions ≡ ok tt
  pub consistent : All (IsConsistent hash_of p.layouts) p.conditions
  pub excepted : All (λ c. (3 ≤ c.planned_substrate_count) ⊎ IsExcepted p.exceptions c) p.conditions

low_or_not :
    {Snapshot : Type 0} (exceptions : List SubstrateException) (c : Condition Snapshot)
    → (is_low c ≡ true → IsExcepted exceptions c)
    → (3 ≤ c.planned_substrate_count) ⊎ IsExcepted exceptions c
low_or_not exceptions c f = elim (Bool-cases (is_low c)) [
  | inl low ↦ inr (f low)
  | inr high ↦ inl (ground arith)
]

pub check_plan-IsReady :
    {Snapshot : Type 0} (hash_of : Snapshot → Option String) (p : Plan Snapshot)
    (target : PlanStatus)
    → needs_approval target ≡ true
    → check_plan hash_of p target ≡ ok tt
    → IsReady hash_of p
unfolding check_plan
check_plan-IsReady {Snapshot} hash_of p target n h =
    let one = λ (c : Condition Snapshot).
      check_exception target c (keep (is_active c.ident) p.exceptions) in
    let k3 = for_each (keep is_low p.conditions) one in
    let k2 = for_each p.conditions (check_condition hash_of p.layouts) >> k3 in
    let (some_row, h1) =
      >>-eq-ok (raise_if (is_empty p.conditions) no_conditions)
        (check_roles p.plan_type p.conditions >> k2) h in
    let (roles, h2) = >>-eq-ok (check_roles p.plan_type p.conditions) k2 h1 in
    let (each, h3) = >>-eq-ok (for_each p.conditions (check_condition hash_of p.layouts)) k3 h2 in
    let lows =
      All-map {Q = λ c. IsExcepted p.exceptions c}
        (λ c. check_exception-IsExcepted target c p.exceptions n) (keep is_low p.conditions)
        (for_each-eq-ok (keep is_low p.conditions) one h3) in
    record {
      some_condition = (raise_if_iff (is_empty p.conditions) no_conditions).0 some_row;
      roles = roles;
      consistent =
          All-map (check_condition-IsConsistent hash_of p.layouts) p.conditions
            (for_each-eq-ok p.conditions (check_condition hash_of p.layouts) each);
      excepted =
          All-map (low_or_not p.exceptions) p.conditions
            ((All-keep_iff (λ c. IsExcepted p.exceptions c) is_low p.conditions).0 lows);
    }
