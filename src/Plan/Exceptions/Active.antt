-- ===== src/Plan/Exceptions/Active.antt =====
-- At most one exception of a condition is active, and an invalidated one does not count.
use perovskite_fabrication_w.Prelude.{
  ℕ, ◌≤◌, String, Option, some, List, [], ◌∷◌, ◌++◌, Bool, true, false, not, ◌&&◌, ◌≡◌, refl, subst,
  ap, arith, ok, ◌>>=◌, ◌>>◌, >>-eq-ok, >>=-eq-ok, raise_if, raise_if_iff, raise_if-not_iff, any,
  any_iff_count, ==_iff, count, count-append, map, ◌==◌, if◌then◌else◌, Option-cases, Bool-cases,
  inl, inr,
}
use perovskite_fabrication_w.Batch.Data.{UserRole, is_student}
use perovskite_fabrication_w.Plan.Data.{
  ExceptionDecision, Condition, SubstrateException, Plan, decision_eq,
}
use perovskite_fabrication_w.Plan.Conditions.{
  is_active, not_pending, decision_refused, decision_forbidden, already_active, plan_not_draft,
  count_differs, not_owner,
}
use perovskite_fabrication_w.Plan.Exceptions.{
  find_condition, find_exception, is_draft, insert_request, request_substrate_exception,
  write_decision, is_verdict, decide_substrate_exception, decide_row, decided, invalidate,
  invalidate_condition_exceptions, requested,
}
use perovskite_fabrication_w.Plan.Status.{require_role, below_instructor}

-- Each condition has at most one pending or approved exception, so the lookup of the plan checks
-- never meets two.
abbrev pub HasOneActive : List SubstrateException → Type 0
HasOneActive es = (k : ℕ) → count (is_active k) es ≤ 1

count-map_le :
    (p : SubstrateException → Bool) (f : SubstrateException → SubstrateException)
    (es : List SubstrateException)
    → ((e : SubstrateException) → p (f e) ≡ true → p e ≡ true)
    → count p (map f es) ≤ count p es
count-map_le p f [] h = omega arith
count-map_le p f (e ∷ es) h = ground (arith, h e, count-map_le p f es h)

-- One more active exception of a condition that has none keeps each condition at one at most.
append-HasOneActive :
    (es : List SubstrateException) (new : SubstrateException)
    → any (is_active new.condition_id) es ≡ false
    → HasOneActive es
    → HasOneActive (es ++ (new ∷ []))
append-HasOneActive es new free one k =
    let total = count-append (is_active k) es (new ∷ []) in
    elim (Bool-cases (new.condition_id == k)) [
      | inl e ↦
          let none_active : any (is_active k) es ≡ false =
            subst (λ n. any (is_active n) es ≡ false) ((==_iff new.condition_id k).0 e) free in
          ground (arith, total, any_iff_count (is_active k) es)
      | inr e ↦ ground (arith, total, one k)
    ]

write_decision-is_active :
    (now actor : ℕ) (decision : ExceptionDecision) (note hash : String) (exception_id k : ℕ)
    (e : SubstrateException)
    → is_active k (write_decision now actor decision note hash exception_id e) ≡ true
    → is_active k e ≡ true
unfolding write_decision
write_decision-is_active now actor decision note hash exception_id k e h = ground arith

invalidate-is_active :
    (now condition_id k : ℕ) (e : SubstrateException)
    → is_active k (invalidate now condition_id e) ≡ true
    → (is_active k e ≡ true) × ((k == condition_id) ≡ false)
unfolding invalidate
invalidate-is_active now condition_id k e h = ground arith

-- The row of the decided exception, found again after the update.
find_exception-map :
    (now actor : ℕ) (decision : ExceptionDecision) (note hash : String) (exception_id : ℕ)
    (es : List SubstrateException) (e : SubstrateException)
    → find_exception exception_id es ≡ some e
    → decision_eq e.decision ExceptionDecision.pending ≡ true
    → find_exception exception_id
        (map (write_decision now actor decision note hash exception_id) es)
      ≡ some (decided now actor decision note hash e)
unfolding find_exception write_decision
find_exception-map now actor decision note hash exception_id [] e found is_pending = cc
find_exception-map now actor decision note hash exception_id (x ∷ es) e found is_pending =
    elim (Bool-cases (x.ident == exception_id)) [
      | inl here ↦
          let same : x ≡ e = ground arith in
          let x_pending : decision_eq x.decision ExceptionDecision.pending ≡ true =
            rw same is_pending in
          rw (here, x_pending, here) (ap (λ y. some (decided now actor decision note hash y)) same)
      | inr there ↦
          let later : find_exception exception_id es ≡ some e = ground arith in
          rw (there, there)
            (find_exception-map now actor decision note hash exception_id es e later is_pending)
    ]

module _ {Snapshot : Type 0} where
  insert_request-HasOneActive :
      (fresh requested_count : ℕ) (reason : String) (c : Condition Snapshot) (p p' : Plan Snapshot)
      → insert_request fresh requested_count reason c p ≡ ok p'
      → HasOneActive p.exceptions
      → HasOneActive p'.exceptions
  unfolding insert_request
  insert_request-HasOneActive fresh requested_count reason c p p' h one =
      let new = requested fresh c.ident requested_count reason in
      let last = ok (record p { exceptions = p.exceptions ++ (new ∷ []) }) in
      let k2 = raise_if (any (is_active c.ident) p.exceptions) already_active >> last in
      let k1 = raise_if (not (c.planned_substrate_count == requested_count)) count_differs >> k2 in
      let (_, h1) = >>-eq-ok (raise_if (not (is_draft p.plan_status)) plan_not_draft) k1 h in
      let (_, h2) =
        >>-eq-ok (raise_if (not (c.planned_substrate_count == requested_count)) count_differs) k2
          h1 in
      let (free, h3) =
        >>-eq-ok (raise_if (any (is_active c.ident) p.exceptions) already_active) last h2 in
      let made : record p { exceptions = p.exceptions ++ (new ∷ []) } ≡ p' = cc in
      subst (λ (q : Plan Snapshot). HasOneActive q.exceptions) made
        (append-HasOneActive p.exceptions new
          ((raise_if_iff (any (is_active c.ident) p.exceptions) already_active).0 free) one)

  -- A request keeps at most one active exception for each condition.
  pub request_substrate_exception-HasOneActive :
      (fresh actor : ℕ) (who : Option UserRole) (condition_id requested_count : ℕ) (reason : String)
      (p p' : Plan Snapshot)
      → request_substrate_exception fresh actor who condition_id requested_count reason p ≡ ok p'
      → HasOneActive p.exceptions
      → HasOneActive p'.exceptions
  unfolding request_substrate_exception
  request_substrate_exception-HasOneActive fresh actor who condition_id requested_count reason p p'
        h one =
      elim (Option-cases (find_condition condition_id p.conditions)) [
        | inl missing ↦ absurd (ground arith)
        | inr (c, found) ↦
            let ins = insert_request fresh requested_count reason c p in
            let own = λ (r : UserRole).
              raise_if (is_student r && not (p.created_by == actor)) not_owner >> ins in
            let found_run : (require_role who >>= own) ≡ ok p' = ground arith in
            let (r, _, h1) = >>=-eq-ok (require_role who) own found_run in
            let (_, h2) =
              >>-eq-ok (raise_if (is_student r && not (p.created_by == actor)) not_owner) ins h1 in
            insert_request-HasOneActive fresh requested_count reason c p p' h2 one
      ]

  -- Invalidating the exceptions of a condition keeps at most one active exception for each
  -- condition, and none for this one.
  pub invalidate_condition_exceptions-HasOneActive :
      (now condition_id : ℕ) (p : Plan Snapshot)
      → HasOneActive p.exceptions
      → HasOneActive (invalidate_condition_exceptions now condition_id p).exceptions
        × (count
              (is_active condition_id)
              (invalidate_condition_exceptions now condition_id p).exceptions
            ≡ 0)
  unfolding invalidate_condition_exceptions
  invalidate_condition_exceptions-HasOneActive now condition_id p one = (
    λ k.
        let le =
          count-map_le (is_active k) (invalidate now condition_id) p.exceptions
            (λ e a. (invalidate-is_active now condition_id k e a).0) in
        omega (arith, one k),
    nothing_left p.exceptions,
  )
    where
      nothing_left :
          (es : List SubstrateException)
          → count (is_active condition_id) (map (invalidate now condition_id) es) ≡ 0
      nothing_left [] = refl
      nothing_left (e ∷ es) =
          elim (Bool-cases (is_active condition_id (invalidate now condition_id e))) [
            | inl a ↦
                let (_, apart) = invalidate-is_active now condition_id condition_id e a in
                absurd (ground arith)
            | inr a ↦ rw a (nothing_left es)
          ]

  -- The pending exception and its condition, and the row that a decision leaves.
  pub record IsDecided (exception_id : ℕ) (decision : ExceptionDecision) (p p' : Plan Snapshot)
      : Type 0 where
    pub exception : SubstrateException
    pub found : find_exception exception_id p.exceptions ≡ some exception
    pub was_pending : decision_eq exception.decision ExceptionDecision.pending ≡ true
    pub condition : Condition Snapshot
    pub judged : find_condition exception.condition_id p.conditions ≡ some condition
    pub now_decided :
        (after : SubstrateException) × (find_exception exception_id p'.exceptions ≡ some after)
        × (after.decision ≡ decision)
        × (after.approved_condition_hash ≡ (
            if decision_eq decision ExceptionDecision.approved
            then some condition.canonical_hash
            else exception.approved_condition_hash))
    pub conditions_kept : p'.conditions ≡ p.conditions
    pub no_more_active :
        (k : ℕ) → count (is_active k) p'.exceptions ≤ count (is_active k) p.exceptions

  decide_row-IsDecided :
      (now actor exception_id : ℕ) (decision : ExceptionDecision) (note : String)
      (p p' : Plan Snapshot)
      → decide_row now actor exception_id decision note p ≡ ok p'
      → IsDecided exception_id decision p p'
  unfolding decide_row
  decide_row-IsDecided now actor exception_id decision note p p' h =
      elim (Option-cases (find_exception exception_id p.exceptions)) [
        | inl missing ↦ absurd (ground arith)
        | inr (e, found) ↦ elim (Option-cases (find_condition e.condition_id p.conditions)) [
          | inl missing ↦ absurd (ground arith)
          | inr (c, judged) ↦
              let write = write_decision now actor decision note c.canonical_hash exception_id in
              let last = ok (record p { exceptions = map write p.exceptions }) in
              let check =
                raise_if (not (decision_eq e.decision ExceptionDecision.pending)) not_pending in
              let run : (check >> last) ≡ ok p' = ground arith in
              let (waiting, h1) = >>-eq-ok check last run in
              let was =
                (raise_if-not_iff (decision_eq e.decision ExceptionDecision.pending) not_pending).0
                  waiting in
              let made : record p { exceptions = map write p.exceptions } ≡ p' = cc in
              subst (IsDecided exception_id decision p) made (record {
                exception = e;
                found = found;
                was_pending = was;
                condition = c;
                judged = judged;
                now_decided = (
                  decided now actor decision note c.canonical_hash e,
                  find_exception-map now actor decision note c.canonical_hash exception_id
                      p.exceptions e found was,
                  refl,
                  refl,
                );
                conditions_kept = refl;
                no_more_active = λ k. count-map_le (is_active k) write p.exceptions (
                    write_decision-is_active now actor decision note c.canonical_hash exception_id
                      k);
              })
        ]
      ]

  -- A decision that succeeds approves or rejects, is made by an instructor or an administrator on a
  -- pending exception, stores the decision asked for with, for an approval, the hash that the
  -- condition has then, and makes no further exception active.
  pub decide_substrate_exception-IsDecided :
      (now actor : ℕ) (who : Option UserRole) (exception_id : ℕ) (decision : ExceptionDecision)
      (note : String) (p p' : Plan Snapshot)
      → decide_substrate_exception now actor who exception_id decision note p ≡ ok p'
      → (is_verdict decision ≡ true)
        × ((role : UserRole) × (require_role who ≡ ok role) × (below_instructor role ≡ false))
        × IsDecided exception_id decision p p'
  unfolding decide_substrate_exception
  decide_substrate_exception-IsDecided now actor who exception_id decision note p p' h =
      let row = decide_row now actor exception_id decision note p in
      let k2 = λ (r : UserRole). raise_if (below_instructor r) decision_forbidden >> row in
      let (v, h1) =
        >>-eq-ok (raise_if (not (is_verdict decision)) decision_refused) (require_role who >>= k2)
          h in
      let (r, known, h2) = >>=-eq-ok (require_role who) k2 h1 in
      let (ranked, h3) = >>-eq-ok (raise_if (below_instructor r) decision_forbidden) row h2 in
      (
        (raise_if-not_iff (is_verdict decision) decision_refused).0 v,
        (r, known, (raise_if_iff (below_instructor r) decision_forbidden).0 ranked),
        decide_row-IsDecided now actor exception_id decision note p p' h3,
      )
