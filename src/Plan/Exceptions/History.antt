-- ===== src/Plan/Exceptions/History.antt =====
-- Histories of a plan: requests, decisions, invalidations and status updates in any order.
use perovskite_fabrication_w.Prelude.{
  ℕ, ◌≤◌, String, Option, [], ◌≡◌, sym, subst, arith, ok, length, keep, length-keep,
}
use perovskite_fabrication_w.Batch.Data.{UserRole}
use perovskite_fabrication_w.Plan.Data.{ExceptionDecision, PlanStatus, Plan}
use perovskite_fabrication_w.Plan.Conditions.{is_active}
use perovskite_fabrication_w.Plan.Status.{set_status, update_plan_status}
use perovskite_fabrication_w.Plan.Status.Granted.{granted}
use perovskite_fabrication_w.Plan.Exceptions.{
  request_substrate_exception, decide_substrate_exception, invalidate_condition_exceptions,
}
use perovskite_fabrication_w.Plan.Exceptions.Active.{
  HasOneActive, request_substrate_exception-HasOneActive, decide_substrate_exception-IsDecided,
  invalidate_condition_exceptions-HasOneActive,
}

module _ {Snapshot : Type 0} (hash_of : Snapshot → Option String) where
  -- One successful operation on a plan.
  pub data Change : Plan Snapshot → Plan Snapshot → Type 0 where
    by_request :
        {p p' : Plan Snapshot} (fresh actor : ℕ) (who : Option UserRole)
        (condition_id requested_count : ℕ) (reason : String)
        → request_substrate_exception fresh actor who condition_id requested_count reason p ≡ ok p'
        → Change p p'
    by_decision :
        {p p' : Plan Snapshot} (now actor : ℕ) (who : Option UserRole) (exception_id : ℕ)
        (decision : ExceptionDecision) (note : String)
        → decide_substrate_exception now actor who exception_id decision note p ≡ ok p'
        → Change p p'
    by_invalidation :
        {p p' : Plan Snapshot} (now condition_id : ℕ)
        → invalidate_condition_exceptions now condition_id p ≡ p'
        → Change p p'
    by_status :
        {p p' : Plan Snapshot} (actor : ℕ) (who : Option UserRole) (target : PlanStatus)
        → update_plan_status hash_of actor who target p ≡ ok p'
        → Change p p'

  pub data Changes : Plan Snapshot → Plan Snapshot → Type 0 where
    unchanged : {p : Plan Snapshot} → Changes p p
    followed_by : {p p' p'' : Plan Snapshot} → Changes p p' → Change p' p'' → Changes p p''

  Change-HasOneActive :
      (p p' : Plan Snapshot) → Change p p' → HasOneActive p.exceptions → HasOneActive p'.exceptions
  unfolding set_status
  Change-HasOneActive p p' (by_request fresh actor who condition_id requested_count reason h) one =
      request_substrate_exception-HasOneActive fresh actor who condition_id requested_count reason p
        p' h one
  Change-HasOneActive p p' (by_decision now actor who exception_id decision note h) one = λ k.
      let (_, _, d) =
        decide_substrate_exception-IsDecided now actor who exception_id decision note p p' h in
      omega (arith, d.no_more_active k, one k)
  Change-HasOneActive p p' (by_invalidation now condition_id e) one =
      subst (λ (q : Plan Snapshot). HasOneActive q.exceptions) e
        (invalidate_condition_exceptions-HasOneActive now condition_id p one).0
  Change-HasOneActive p p' (by_status actor who target h) one =
      subst (λ (q : Plan Snapshot). HasOneActive q.exceptions)
        (granted hash_of actor who target p p' h).written one

  Changes-HasOneActive :
      (p p' : Plan Snapshot) → Changes p p' → HasOneActive p.exceptions → HasOneActive p'.exceptions
  Changes-HasOneActive p _ unchanged one = one
  Changes-HasOneActive p p'' (followed_by {p' = p1} before last) one =
      Change-HasOneActive p1 p'' last (Changes-HasOneActive p p1 before one)

  -- A plan that starts with no exceptions never has two active ones of a condition, so the lookup
  -- of the plan checks finds at most one row.
  pub active_rows :
      (p p' : Plan Snapshot)
      → p.exceptions ≡ []
      → Changes p p'
      → (k : ℕ) → length (keep (is_active k) p'.exceptions) ≤ 1
  active_rows p p' fresh run k =
      let start : HasOneActive p.exceptions = subst HasOneActive (sym fresh) (λ j. omega arith) in
      let one = Changes-HasOneActive p p' run start k in
      omega (arith, length-keep (is_active k) p'.exceptions)
