-- ===== src/Recipe/Complete/Adjustments.antt =====
-- The adjustments of a target group that inherits from the control.
use perovskite_fabrication_w.Prelude.{
  ℕ, suc, String, List, [], ◌∷◌, false, ◌≡◌, ◌≢◌, ◌↔◌, refl, arith, ok, >>-ok_iff, All, All-map,
  All-zip, eq_iff,
}
use perovskite_fabrication_w.Prelude.Sets.{contains}
use perovskite_fabrication_w.Recipe.Data.{GroupAdjustment}
use perovskite_fabrication_w.Recipe.Complete.{complete_adjustment, complete_adjustments}

-- An adjustment names its parameter and two values that differ.
abbrev pub IsAdjustment : GroupAdjustment → Type 0
IsAdjustment a =
    (a.parameter ≢ "")
    × (a.control_value ≢ "")
    × (a.target_value ≢ "")
    × (a.target_value ≢ a.control_value)

-- No two adjustments have the same parameter.
abbrev pub AreDistinct : List GroupAdjustment → Type 0
AreDistinct [] = Unit
AreDistinct (a ∷ rest) = All (λ b. a.parameter ≢ b.parameter) rest × AreDistinct rest

complete_adjustment_iff :
    (name : String) (seen : List String) (index : ℕ) (a : GroupAdjustment)
    → (complete_adjustment name seen index a ≡ ok tt)
      ↔ (IsAdjustment a × (contains seen a.parameter ≡ false))
unfolding complete_adjustment
complete_adjustment_iff name seen index a = (
  λ h. (
    (
      λ e. ground (arith, eq_iff a.parameter ""),
      λ e. ground (arith, eq_iff a.control_value ""),
      λ e. ground (arith, eq_iff a.target_value ""),
      λ e. ground (arith, eq_iff a.target_value a.control_value),
    ),
    ground arith,
  ),
  λ h. ground (
    arith,
    eq_iff a.parameter "",
    eq_iff a.control_value "",
    eq_iff a.target_value "",
    eq_iff a.target_value a.control_value,
  ),
)

module _ (p : String) (seen : List String) (b : GroupAdjustment) where
  fresh_cons :
      contains (p ∷ seen) b.parameter ≡ false
      → (p ≢ b.parameter) × (contains seen b.parameter ≡ false)
  unfolding contains
  fresh_cons h = (λ e. ground (arith, eq_iff p b.parameter), ground arith)

  cons_fresh :
      p ≢ b.parameter → contains seen b.parameter ≡ false → contains (p ∷ seen) b.parameter ≡ false
  unfolding contains
  cons_fresh ne h = ground (arith, eq_iff p b.parameter)

contains_nil : (key : String) → contains [] key ≡ false
unfolding contains
contains_nil key = refl

adjustments_iff :
    (name : String) (seen : List String) (index : ℕ) (items : List GroupAdjustment)
    → (complete_adjustments name seen index items ≡ ok tt) ↔ (
        All IsAdjustment items
        × AreDistinct items
        × All (λ b. contains seen b.parameter ≡ false) items)
unfolding complete_adjustments
adjustments_iff name seen index [] = (λ h. (tt, tt, tt), λ h. refl)
adjustments_iff name seen index (a ∷ rest) =
    let now = complete_adjustment_iff name seen index a in
    let later = adjustments_iff name (a.parameter ∷ seen) (suc index) rest in
    let chain =
      >>-ok_iff (complete_adjustment name seen index a)
        (complete_adjustments name (a.parameter ∷ seen) (suc index) rest) in
    (
      λ h.
          let (first, others) = chain.0 h in
          let (good, fresh) = now.0 first in
          let (all_good, distinct, unseen) = later.0 others in
          let parts = All-map (λ b. fresh_cons a.parameter seen b) rest unseen in
          (
            (good, all_good),
            (All-map (λ b q. q.0) rest parts, distinct),
            (fresh, All-map (λ b q. q.1) rest parts),
          ),
      λ h. chain.1 (
        now.1 (h.0.0, h.2.0),
        later.1 (h.0.1, h.1.1, All-zip (λ b. cons_fresh a.parameter seen b) rest h.1.0 h.2.1),
      ),
    )

-- The adjustments of a group pass exactly when each names its parameter and two values that differ,
-- and no two adjust the same parameter.
pub complete_adjustments_iff :
    (name : String) (items : List GroupAdjustment)
    → (complete_adjustments name [] 1 items ≡ ok tt) ↔ (All IsAdjustment items × AreDistinct items)
complete_adjustments_iff name items =
    let (to, from) = adjustments_iff name [] 1 items in
    (
      λ h. let (good, distinct, _) = to h in (good, distinct),
      λ h. from (h.0, h.1, nothing_seen items),
    )
  where
    nothing_seen : (xs : List GroupAdjustment) → All (λ b. contains [] b.parameter ≡ false) xs
    nothing_seen [] = tt
    nothing_seen (x ∷ xs) = (contains_nil x.parameter, nothing_seen xs)
