-- ===== src/Batch/Counts/Bounds.antt =====
-- What a completion has written for each condition.
use perovskite_fabrication_w.Prelude.{
  ℕ, zero, suc, ◌+◌, ◌-◌, ◌≤◌, ◌<◌, String, some, List, [], ◌∷◌, ◌++◌, true, false, not, ◌≡◌, ◌≢◌,
  ◌⊎◌, inl, inr, refl, subst, ap, ◌∙◌, arith, ok, Result, ◌>>=◌, ◌>>◌, >>-eq-ok, >>=-eq-ok,
  raise_if, All, All-append, map, Bool-cases, Option-cases, ltb, ◌==◌, str_eq, eq_iff,
}
use mathlib.Core.Path.{subst₂}
use perovskite_fabrication_w.Recipe.Stack.{is_empty}
use perovskite_fabrication_w.Prelude.Int.{ℤ, pos, negsuc}
use perovskite_fabrication_w.Prelude.Text.{strip}
use perovskite_fabrication_w.Batch.Data.{Substrate, BatchCondition, Shortfall}
use perovskite_fabrication_w.Batch.Counts.{
  shortfall_rows, BatchError, mem, lookup, keys, precheck, materialize, range, shortfall_row,
  extend_condition, write_condition, extra_substrates, resolve_layout, to_nat, with_count,
  precheck_all, write_all, normalize_shortfalls, record_actual_substrate_counts, covers, sum_pos,
  sum_neg,
}

-- The condition `c'` and the deviations `devs` that a declared count `n` leaves of `c`.
pub record IsWritten (c : BatchCondition) (n : ℕ) (c' : BatchCondition) (devs : List Shortfall)
    : Type 0 where
  pub same : c'.ident ≡ c.ident
  pub plan_kept : c'.planned_substrate_count ≡ c.planned_substrate_count
  pub recorded : c'.actual_substrate_count ≡ some n
  -- the missing ordinals up to the count are added behind the planned ones
  pub ordinals :
      map (λ s. s.ordinal) c'.substrates
      ≡ map (λ s. s.ordinal) c.substrates
        ++ range (c.planned_substrate_count + 1) (n - c.planned_substrate_count)
  pub explained :
      (n < c.planned_substrate_count)
        × ((text : String) × (text ≢ "")
            × (devs
                ≡ record {
                  condition_id = c.ident;
                  description = text;
                  planned = c.planned_substrate_count;
                  actual = n;
                }
                  ∷ []))
      ⊎ (c.planned_substrate_count ≤ n) × (devs ≡ [])

map-append :
    (xs ys : List Substrate)
    → map (λ s. s.ordinal) (xs ++ ys) ≡ map (λ s. s.ordinal) xs ++ map (λ s. s.ordinal) ys
map-append [] ys = refl
map-append (x ∷ xs) ys = ap (λ l. x.ordinal ∷ l) (map-append xs ys)

map-range :
    (ds start n : ℕ)
    → map
        (λ (s : Substrate). s.ordinal)
        (map (λ k. record { ordinal = k; device_ordinals = range 1 ds }) (range start n))
      ≡ range start n
map-range ds start zero = refl
map-range ds start (suc n) = ap (λ l. start ∷ l) (map-range ds (suc start) n)

materialize-ordinals :
    (ds start n : ℕ) (new : List Substrate)
    → materialize ds start n ≡ ok new
    → map (λ s. s.ordinal) new ≡ range start n
unfolding materialize
materialize-ordinals ds start zero new h =
    let e : [] ≡ new = cc in subst (λ l. map (λ (s : Substrate). s.ordinal) l ≡ []) e refl
materialize-ordinals ds start (suc n) new h =
    let rows : List Substrate =
      map (λ k. record { ordinal = k; device_ordinals = range 1 ds }) (range start (suc n)) in
    let (_, built) = >>-eq-ok (raise_if (ltb 9 ds) BatchError.too_many_devices) (ok rows) h in
    let e : rows ≡ new = cc in
    subst (λ l. map (λ (s : Substrate). s.ordinal) l ≡ range start (suc n)) e
      (map-range ds start (suc n))

extra_substrates-ordinals :
    (c : BatchCondition) (n : ℕ) (new : List Substrate)
    → extra_substrates c n ≡ ok new
    → map (λ s. s.ordinal) new
      ≡ range (c.planned_substrate_count + 1) (n - c.planned_substrate_count)
unfolding extra_substrates
extra_substrates-ordinals c n new = elim (Bool-cases (ltb c.planned_substrate_count n)) [
  | inl more ↦ rw more (λ h.
      let (devices, _, made) =
        >>=-eq-ok (resolve_layout c)
          (λ (devices : ℕ).
            materialize devices (c.planned_substrate_count + 1) (n - c.planned_substrate_count))
          h in
      materialize-ordinals devices (c.planned_substrate_count + 1) (n - c.planned_substrate_count)
        new made)
  | inr enough ↦
      let nothing : n - c.planned_substrate_count ≡ 0 = ground arith in
      rw (enough, nothing)
        (λ h.
          let e : [] ≡ new = cc in subst (λ l. map (λ (s : Substrate). s.ordinal) l ≡ []) e refl)
]

-- Explanations that are texts.
abbrev AreTexts : List (ℕ × String) → Type 0
AreTexts ex = All (λ e. e.1 ≢ "") ex

lookup-text :
    (k : ℕ) (ex : List (ℕ × String))
    → AreTexts ex
    → mem k (keys ex) ≡ true
    → (text : String) × (text ≢ "") × (lookup k ex ≡ some text)
unfolding mem lookup
lookup-text k [] t h = absurd (ground arith)
lookup-text k ((j, v) ∷ m) t h = elim (Bool-cases (j == k)) [
  | inl e ↦ (v, t.0, rw e)
  | inr e ↦
      let (text, some_text, found) = lookup-text k m t.1 (ground arith) in
      (text, some_text, rw e found)
]

ok_same :
    (found : Result BatchError (List Shortfall)) (rows devs others : List Shortfall)
    → rows ≡ devs
    → found ≡ ok rows
    → found ≡ ok others
    → devs ≡ others
ok_same found rows devs others d h k = cc

-- The two passes on one condition, with explanations that are texts.
write_condition-IsWritten :
    (ex : List (ℕ × String)) (c : BatchCondition) (actual : ℤ) (c' : BatchCondition)
    (devs : List Shortfall)
    → AreTexts ex
    → precheck ex c actual ≡ ok tt
    → write_condition ex c actual ≡ ok (c', devs)
    → IsWritten c (to_nat actual) c' devs
unfolding precheck write_condition
write_condition-IsWritten ex c (negsuc k) c' devs t p w = absurd (ground arith)
write_condition-IsWritten ex c (pos n) c' devs t p w =
    let planned = c.planned_substrate_count in
    let finish =
      λ (rows : List Shortfall) (new : List Substrate). ok (extend_condition c n new, rows) in
    let make = λ (rows : List Shortfall). extra_substrates c n >>= finish rows in
    let (rows, listed, w1) = >>=-eq-ok (shortfall_rows ex c (pos n)) make w in
    let (new, made, built) = >>=-eq-ok (extra_substrates c n) (finish rows) w1 in
    let e : extend_condition c n new ≡ c' = cc in
    let d : rows ≡ devs = cc in
    subst (λ x. IsWritten c n x devs) e
      (record {
        same = refl;
        plan_kept = refl;
        recorded = refl;
        ordinals =
            map-append c.substrates new
            ∙ ap (λ l. map (λ (s : Substrate). s.ordinal) c.substrates ++ l)
                (extra_substrates-ordinals c n new made);
        explained = elim (Bool-cases (ltb n planned)) [
          | inl short ↦
              let (text, some_text, found) = lookup-text c.ident ex t (ground arith) in
              let row : shortfall_rows ex c (pos n) ≡ ok (shortfall_row c n text) =
                rw (short, found) refl in
              inl (
                ground arith,
                (
                  text,
                  some_text,
                  ok_same (shortfall_rows ex c (pos n)) rows devs (shortfall_row c n text) d listed
                      row,
                ),
              )
          | inr enough ↦
              let row : shortfall_rows ex c (pos n) ≡ ok [] = rw enough refl in
              inr (ground arith, ok_same (shortfall_rows ex c (pos n)) rows devs [] d listed row)
        ];
      })

-- Each condition is written with its declared count, and the deviations are those of the
-- conditions in order.
pub data AreWritten (counts : List (ℕ × ℤ))
    : List BatchCondition → List BatchCondition → List Shortfall → Type 0 where
  none_left : AreWritten counts [] [] []
  one_more :
      {c c' : BatchCondition} {cs cs' : List BatchCondition} {devs rest all_devs : List Shortfall}
      (n : ℕ)
      → lookup c.ident counts ≡ some (pos n)
      → IsWritten c n c' devs
      → AreWritten counts cs cs' rest
      → all_devs ≡ devs ++ rest
      → AreWritten counts (c ∷ cs) (c' ∷ cs') all_devs

normalize-AreTexts :
    (ids : List ℕ) (seen raw ex : List (ℕ × String))
    → AreTexts seen
    → normalize_shortfalls ids seen raw ≡ ok ex
    → AreTexts ex
unfolding normalize_shortfalls
normalize-AreTexts ids seen [] ex t h = let e : seen ≡ ex = cc in subst AreTexts e t
normalize-AreTexts ids seen ((k, text) ∷ raw) ex t h =
    let stripped : str_eq (strip text) "" ≡ false = ground arith in
    let text_ok : strip text ≢ "" = λ e. ground (arith, eq_iff (strip text) "") in
    normalize-AreTexts ids (seen ++ ((k, strip text) ∷ [])) raw ex
      (All-append (λ e. e.1 ≢ "") seen ((k, strip text) ∷ []) t (text_ok, tt)) (ground arith)

module _ (counts : List (ℕ × ℤ)) (ex : List (ℕ × String)) (texts : AreTexts ex) where
  nonneg_of_precheck : (c : BatchCondition) (v : ℤ) → precheck ex c v ≡ ok tt → v ≡ pos (to_nat v)
  unfolding precheck
  nonneg_of_precheck c (pos n) h = refl
  nonneg_of_precheck c (negsuc n) h = absurd (ground arith)

  with_count-IsWritten :
      (c c' : BatchCondition) (devs : List Shortfall)
      → with_count counts c (precheck ex c) ≡ ok tt
      → with_count counts c (write_condition ex c) ≡ ok (c', devs)
      → (n : ℕ) × (lookup c.ident counts ≡ some (pos n)) × IsWritten c n c' devs
  with_count-IsWritten c c' devs p w = elim (Option-cases (lookup c.ident counts)) [
    | inl missing ↦ absurd (ground arith)
    | inr (v, found) ↦
        let checked : precheck ex c v ≡ ok tt = ground arith in
        let wrote : write_condition ex c v ≡ ok (c', devs) = ground arith in
        (
          to_nat v,
          found ∙ ap some (nonneg_of_precheck c v checked),
          write_condition-IsWritten ex c v c' devs texts checked wrote,
        )
  ]

  write_all-AreWritten :
      (cs cs' : List BatchCondition) (devs : List Shortfall)
      → precheck_all counts ex cs ≡ ok tt
      → write_all counts ex cs ≡ ok (cs', devs)
      → AreWritten counts cs cs' devs
  unfolding precheck_all write_all
  write_all-AreWritten [] cs' devs p w =
      let e : [] ≡ cs' = cc in let d : [] ≡ devs = cc in subst₂ (AreWritten counts []) e d none_left
  write_all-AreWritten (c ∷ cs) cs' devs p w =
      let (p0, p1) = >>-eq-ok (with_count counts c (precheck ex c)) (precheck_all counts ex cs) p in
      let ((c0, d0), w0, w1) =
        >>=-eq-ok (with_count counts c (write_condition ex c))
          (λ one. write_all counts ex cs >>= λ rest. ok (one.0 ∷ rest.0, one.1 ++ rest.1)) w in
      let ((cs1, d1), w2, w3) =
        >>=-eq-ok (write_all counts ex cs) (λ rest. ok (c0 ∷ rest.0, d0 ++ rest.1)) w1 in
      let (n, found, written) = with_count-IsWritten c c0 d0 p0 w0 in
      let e : c0 ∷ cs1 ≡ cs' = cc in
      let d : d0 ++ d1 ≡ devs = cc in
      subst₂ (AreWritten counts (c ∷ cs)) e d
        (one_more n found written (write_all-AreWritten cs cs1 d1 p1 w2) refl)

-- When the counts are accepted, every condition is recorded with the non-negative count declared
-- for it: its missing ordinals are added behind the planned ones, and exactly the conditions that
-- fall short leave one deviation, with a text that is not blank.
pub record_actual_substrate_counts-AreWritten :
    (cs cs' : List BatchCondition) (counts : List (ℕ × ℤ)) (raw : List (ℕ × String))
    (devs : List Shortfall)
    → record_actual_substrate_counts cs counts raw ≡ ok (cs', devs)
    → AreWritten counts cs cs' devs
unfolding record_actual_substrate_counts
record_actual_substrate_counts-AreWritten cs cs' counts raw devs h =
    let ids = map (λ (c : BatchCondition). c.ident) cs in
    let body = λ (ex : List (ℕ × String)). precheck_all counts ex cs >> write_all counts ex cs in
    let last = normalize_shortfalls ids [] raw >>= body in
    let sums =
      raise_if (ltb (99 + sum_neg counts) (sum_pos counts)) BatchError.too_many_substrates
      >> last in
    let cover = raise_if (not (covers counts ids)) BatchError.counts_not_covering >> sums in
    let (_, h1) = >>-eq-ok (raise_if (is_empty counts) BatchError.counts_missing) cover h in
    let (_, h2) =
      >>-eq-ok (raise_if (not (covers counts ids)) BatchError.counts_not_covering) sums h1 in
    let (_, h3) =
      >>-eq-ok
        (raise_if (ltb (99 + sum_neg counts) (sum_pos counts)) BatchError.too_many_substrates) last
        h2 in
    let (ex, normal, h4) = >>=-eq-ok (normalize_shortfalls ids [] raw) body h3 in
    let (p, w) = >>-eq-ok (precheck_all counts ex cs) (write_all counts ex cs) h4 in
    write_all-AreWritten counts ex (normalize-AreTexts ids [] raw ex tt normal) cs cs' devs p w
