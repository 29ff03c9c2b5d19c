-- ===== src/Batch/Lifecycle/Updates.antt =====
-- What a successful status update means, and what no sequence of updates can do.
use perovskite_fabrication_w.Prelude.{
  ℕ, suc, ◌+◌, ◌≤◌, ◌<◌, String, Option, none, some, List, [], ◌∷◌, ◌++◌, Bool, true, false, not,
  ◌&&◌, ◌≡◌, ◌≢◌, refl, sym, subst, ap, ◌∙◌, arith, ok, ◌>>=◌, ◌>>◌, >>-eq-ok, >>=-eq-ok, raise_if,
  raise_if_iff, raise_if-not_iff, All, any, ◌==◌, ==_iff,
}
use perovskite_fabrication_w.Prelude.Int.{ℤ}
use perovskite_fabrication_w.Batch.Data.{
  UserRole, student, is_student, BatchStatus, Batch, BatchCondition, Shortfall, Preparation,
  Execution,
}
use perovskite_fabrication_w.Batch.Counts.{
  status_conflict, not_owner, cancel_forbidden, preparation_open, execution_open,
  record_actual_substrate_counts,
}
use perovskite_fabrication_w.Batch.Counts.Bounds.{
  AreWritten, record_actual_substrate_counts-AreWritten,
}
use perovskite_fabrication_w.Batch.Lifecycle.{
  batch_transition_allowed, is_cancelled, preparation_terminal, execution_terminal,
  validate_batch_complete, validate_batch_ready, prepare_update, stamp, require_actor, close_update,
  apply_batch_status_update,
}

require_actor-eq-ok :
    (who : Option UserRole) (r : UserRole) → require_actor who ≡ ok r → who ≡ some r
require_actor-eq-ok none r h = absurd (ground arith)
require_actor-eq-ok (some x) r h = let e : x ≡ r = cc in ap some e

-- How far a batch has come.
abbrev pub phase : BatchStatus → ℕ
phase BatchStatus.draft = 0
phase BatchStatus.ready = 1
phase BatchStatus.in_progress = 2
phase BatchStatus.completed = 3
phase BatchStatus.cancelled = 3

allowed-phase : (s t : BatchStatus) → batch_transition_allowed s t ≡ true → phase s < phase t
unfolding batch_transition_allowed
allowed-phase BatchStatus.draft BatchStatus.ready h = omega arith
allowed-phase BatchStatus.draft BatchStatus.cancelled h = omega arith
allowed-phase BatchStatus.ready BatchStatus.in_progress h = omega arith
allowed-phase BatchStatus.ready BatchStatus.cancelled h = omega arith
allowed-phase BatchStatus.in_progress BatchStatus.completed h = omega arith
allowed-phase BatchStatus.in_progress BatchStatus.cancelled h = omega arith
allowed-phase _ _ h = absurd (ground arith)

phase_bound : (s : BatchStatus) → phase s ≤ 3
phase_bound BatchStatus.draft = omega arith
phase_bound BatchStatus.ready = omega arith
phase_bound BatchStatus.in_progress = omega arith
phase_bound BatchStatus.completed = omega arith
phase_bound BatchStatus.cancelled = omega arith

any-false-All {ℓ} :
    {A : Type ℓ} (p : A → Bool) (xs : List A)
    → any (λ x. not (p x)) xs ≡ false
    → All (λ x. p x ≡ true) xs
any-false-All p [] h = tt
any-false-All p (x ∷ xs) h = (ground arith, any-false-All p xs (ground arith))

close_update-status :
    (now actor : ℕ) (s t : BatchStatus) (b : Batch) → (close_update now actor s t b).status ≡ t
unfolding close_update
close_update-status now actor s t b = refl

-- What a completion leaves: every preparation and execution in a final state, each condition
-- written with its count, and the deviations added to those of the batch.
pub record IsComplete (counts : List (ℕ × ℤ)) (b b' : Batch) : Type 0 where
  pub devs : List Shortfall
  pub preparations_final : All (λ p. preparation_terminal p.status ≡ true) b'.preparations
  pub executions_final : All (λ e. execution_terminal e.status ≡ true) b'.executions
  pub written : AreWritten counts b.conditions b'.conditions devs
  pub deviations : b'.shortfalls ≡ b.shortfalls ++ devs

close_update-audit :
    (now actor : ℕ) (s t : BatchStatus) (b : Batch)
    → (close_update now actor s t b).audit
      ≡ b.audit ++ (record { actor = actor; from = s; to = t } ∷ [])
unfolding close_update stamp
close_update-audit now actor s BatchStatus.draft b = refl
close_update-audit now actor s BatchStatus.ready b = refl
close_update-audit now actor s BatchStatus.in_progress b = refl
close_update-audit now actor s BatchStatus.completed b = refl
close_update-audit now actor s BatchStatus.cancelled b = refl

prepare_update-completed :
    (b m : Batch) (counts : List (ℕ × ℤ)) (raw : List (ℕ × String))
    → prepare_update b BatchStatus.completed counts raw ≡ ok m
    → IsComplete counts b m × (m.audit ≡ b.audit)
unfolding prepare_update validate_batch_complete
prepare_update-completed b m counts raw h =
    let new = λ (w : List BatchCondition × List Shortfall). record b {
      conditions = w.0;
      shortfalls = b.shortfalls ++ w.1;
    } in
    let build =
      λ (w : List BatchCondition × List Shortfall). validate_batch_complete b >> ok (new w) in
    let ((cs, devs), recorded, h1) =
      >>=-eq-ok (record_actual_substrate_counts b.conditions counts raw) build h in
    let (v, h2) = >>-eq-ok (validate_batch_complete b) (ok (new (cs, devs))) h1 in
    let waiting =
      raise_if (any (λ p. not (preparation_terminal p.status)) b.preparations) preparation_open in
    let running =
      raise_if (any (λ e. not (execution_terminal e.status)) b.executions) execution_open in
    let (v1, v2) = >>-eq-ok waiting running v in
    let e : new (cs, devs) ≡ m = cc in
    subst (λ x. IsComplete counts b x × (x.audit ≡ b.audit)) e
      (
        record {
          devs = devs;
          preparations_final =
              any-false-All (λ (p : Preparation). preparation_terminal p.status) b.preparations
                ((raise_if_iff (any (λ p. not (preparation_terminal p.status)) b.preparations)
                    preparation_open).0
                  v1);
          executions_final =
              any-false-All (λ (x : Execution). execution_terminal x.status) b.executions
                ((raise_if_iff (any (λ x. not (execution_terminal x.status)) b.executions)
                    execution_open).0
                  v2);
          written =
              record_actual_substrate_counts-AreWritten b.conditions cs counts raw devs recorded;
          deviations = refl;
        },
        refl,
      )

prepare_update-audit :
    (b m : Batch) (t : BatchStatus) (counts : List (ℕ × ℤ)) (raw : List (ℕ × String))
    → prepare_update b t counts raw ≡ ok m
    → m.audit ≡ b.audit
unfolding prepare_update
prepare_update-audit b m BatchStatus.completed counts raw h =
    (prepare_update-completed b m counts raw h).1
prepare_update-audit b m BatchStatus.ready counts raw h =
    let (_, e) = >>-eq-ok (validate_batch_ready b) (ok b) h in
    let e' : m ≡ b = cc in ap (λ x. x.audit) e'
prepare_update-audit b m _ counts raw h = let e' : m ≡ b = cc in ap (λ x. x.audit) e'

close_update-IsComplete :
    (now actor : ℕ) (s : BatchStatus) (counts : List (ℕ × ℤ)) (b m : Batch)
    → IsComplete counts b m
    → IsComplete counts b (close_update now actor s BatchStatus.completed m)
unfolding close_update stamp
close_update-IsComplete now actor s counts b m c = record {
  devs = c.devs;
  preparations_final = c.preparations_final;
  executions_final = c.executions_final;
  written = c.written;
  deviations = c.deviations;
}

module _ (now actor : ℕ) (who : Option UserRole) (b : Batch) (status : BatchStatus)
    (counts : List (ℕ × ℤ)) (shortfalls : List (ℕ × String)) where
  -- What the steps of a successful update have shown.
  record Passed (b' : Batch) : Type 0 where
    allowed : batch_transition_allowed b.status status ≡ true
    role : UserRole
    known : who ≡ some role
    owns : (is_student role && not (b.owner == actor)) ≡ false
    may_cancel : (is_student role && is_cancelled status) ≡ false
    middle : Batch
    prepared : prepare_update b status counts shortfalls ≡ ok middle
    closed : close_update now actor b.status status middle ≡ b'

  passed :
      (b' : Batch)
      → apply_batch_status_update now actor who b status counts shortfalls ≡ ok b'
      → Passed b'
  unfolding apply_batch_status_update
  passed b' h =
      let finish = λ (m : Batch). ok (close_update now actor b.status status m) in
      let m4 = prepare_update b status counts shortfalls >>= finish in
      let m3 =
        λ (r : UserRole). raise_if (is_student r && is_cancelled status) cancel_forbidden >> m4 in
      let m2 =
        λ (r : UserRole). raise_if (is_student r && not (b.owner == actor)) not_owner >> m3 r in
      let m1 = require_actor who >>= m2 in
      let (a, h1) =
        >>-eq-ok (raise_if (not (batch_transition_allowed b.status status)) status_conflict) m1 h in
      let (r, k, h2) = >>=-eq-ok (require_actor who) m2 h1 in
      let (o, h3) =
        >>-eq-ok (raise_if (is_student r && not (b.owner == actor)) not_owner) (m3 r) h2 in
      let (c, h4) =
        >>-eq-ok (raise_if (is_student r && is_cancelled status) cancel_forbidden) m4 h3 in
      let (m, p, f) = >>=-eq-ok (prepare_update b status counts shortfalls) finish h4 in
      record {
        allowed = (raise_if-not_iff (batch_transition_allowed b.status status) status_conflict).0 a;
        role = r;
        known = require_actor-eq-ok who r k;
        owns = (raise_if_iff (is_student r && not (b.owner == actor)) not_owner).0 o;
        may_cancel = (raise_if_iff (is_student r && is_cancelled status) cancel_forbidden).0 c;
        middle = m;
        prepared = p;
        closed = cc;
      }

  -- A successful update moves the batch along an allowed transition to the status asked for, which
  -- is a later phase, and adds to the audit log one entry with the actor and both statuses.
  pub update-IsLater :
      (b' : Batch)
      → apply_batch_status_update now actor who b status counts shortfalls ≡ ok b'
      → (batch_transition_allowed b.status status ≡ true)
        × (b'.status ≡ status)
        × (phase b.status < phase b'.status)
        × (b'.audit ≡ b.audit ++ (record { actor = actor; from = b.status; to = status } ∷ []))
  update-IsLater b' h =
      let p = passed b' h in
      let e : b'.status ≡ status =
        sym (ap (λ (x : Batch). x.status) p.closed)
        ∙ close_update-status now actor b.status status p.middle in
      (
        p.allowed,
        e,
        subst (λ s. phase b.status < phase s) (sym e) (allowed-phase b.status status p.allowed),
        sym (ap (λ (x : Batch). x.audit) p.closed)
            ∙ close_update-audit now actor b.status status p.middle
            ∙ ap (λ l. l ++ (record { actor = actor; from = b.status; to = status } ∷ []))
                (prepare_update-audit b p.middle status counts shortfalls p.prepared),
      )

  -- A student whose update succeeds owns the plan of the batch and does not cancel it.
  pub update-by_student :
      (b' : Batch)
      → apply_batch_status_update now actor who b status counts shortfalls ≡ ok b'
      → who ≡ some student
      → (b.owner ≡ actor) × (status ≢ BatchStatus.cancelled)
  update-by_student b' h s =
      let p = passed b' h in
      let is : p.role ≡ student = cc in
      let owns : (is_student student && not (b.owner == actor)) ≡ false =
        subst (λ r. (is_student r && not (b.owner == actor)) ≡ false) is p.owns in
      let keeps : (is_student student && is_cancelled status) ≡ false =
        subst (λ r. (is_student r && is_cancelled status) ≡ false) is p.may_cancel in
      (
        ground (arith, ==_iff b.owner actor),
        λ e. let c : is_cancelled status ≡ true = ap is_cancelled e in ground arith,
      )

-- A successful completion leaves the batch with all preparations and executions in a final state,
-- every condition written with its declared count and the deviations of the shortfalls added.
pub update-IsComplete :
    (now actor : ℕ) (who : Option UserRole) (b b' : Batch) (counts : List (ℕ × ℤ))
    (shortfalls : List (ℕ × String))
    → apply_batch_status_update now actor who b BatchStatus.completed counts shortfalls ≡ ok b'
    → IsComplete counts b b'
update-IsComplete now actor who b b' counts shortfalls h =
    let p = passed now actor who b BatchStatus.completed counts shortfalls b' h in
    subst (IsComplete counts b) p.closed (
      close_update-IsComplete now actor b.status counts b p.middle
        (prepare_update-completed b p.middle counts shortfalls p.prepared).0)

-- A number of successful updates in a row, by any actors, at any times.
pub data Updates : ℕ → Batch → Batch → Type 0 where
  no_more : {b : Batch} → Updates 0 b b
  update :
      {n : ℕ} {b b' b'' : Batch} (now actor : ℕ) (who : Option UserRole) (status : BatchStatus)
      (counts : List (ℕ × ℤ)) (shortfalls : List (ℕ × String))
      → apply_batch_status_update now actor who b status counts shortfalls ≡ ok b'
      → Updates n b' b''
      → Updates (suc n) b b''

phase_rises : (n : ℕ) (b b' : Batch) → Updates n b b' → phase b.status + n ≤ phase b'.status
phase_rises _ b _ no_more = omega arith
phase_rises (suc n) b b'' (update {b' = b1} now actor who status counts shortfalls h rest) =
    let (_, _, later, _) = update-IsLater now actor who b status counts shortfalls b1 h in
    let more = phase_rises n b1 b'' rest in omega arith

-- A batch in phase p goes through at most 3 - p successful updates, whoever asks for them: at most
-- three from a draft, and none once it is completed or cancelled.
pub phase_limit : (n : ℕ) (b b' : Batch) → Updates n b b' → phase b.status + n ≤ 3
phase_limit n b b' us =
    let run = phase_rises n b b' us in let top = phase_bound b'.status in omega arith
