-- ===== src/AdaptiveLoad/MetricsEvaluator/Period.antt =====
-- GetReportingPeriod() of metrics_evaluator_impl.cc: the time when all workers are active.
use nighthawk.Base.{ℕ, ◌-◌, ◌≤◌, ◌<◌, List, [], ◌∷◌, ◌≡◌, ◌≢◌, ◌↔◌, All, ltb, if◌then◌else◌, arith}
use nighthawk.Base.Status.{ok}
use nighthawk.AdaptiveLoad.MetricsEvaluator.{
  WorkerResult, ReportingPeriod, execution_end, narrow, period_of, get_reporting_period,
}

abbrev pub ActiveAt : ℕ → WorkerResult → Type 0
ActiveAt t r = (r.execution_start ≤ t) × (t ≤ execution_end r)

later_start : (t a b : ℕ) → ((if ltb a b then b else a) ≤ t) ↔ ((a ≤ t) × (b ≤ t))
later_start t a b = ground arith

earlier_end : (t a b : ℕ) → (t ≤ (if ltb b a then b else a)) ↔ ((t ≤ a) × (t ≤ b))
earlier_end t a b = ground arith

narrow-common :
    (rs : List WorkerResult) (start end t : ℕ)
    → (((narrow rs start end).0 ≤ t) × (t ≤ (narrow rs start end).1))
      ↔ ((start ≤ t) × (t ≤ end) × All (ActiveAt t) rs)
unfolding narrow
narrow-common [] start end t = ground arith
narrow-common (r ∷ rs) start end t =
    let inner =
      narrow-common rs (if ltb start r.execution_start then r.execution_start else start)
        (if ltb (execution_end r) end then execution_end r else end) t in
    let starts = later_start t start r.execution_start in
    let ends = earlier_end t end (execution_end r) in
    (
      λ h.
          let (a, b, all) = inner.0 h in
          let (a1, a2) = starts.0 a in let (b1, b2) = ends.0 b in (a1, b1, ((a2, b2), all)),
      λ (a1, b1, ((a2, b2), all)). inner.1 (starts.1 (a1, a2), ends.1 (b1, b2), all),
    )

period_of-some : (ends : ℕ × ℕ) → ends.0 < ends.1 → (p : ReportingPeriod) × (period_of ends ≡ ok p)
unfolding period_of
period_of-some (start, end) h =
    (record { start_time = start; duration = end - start }, ground (arith, h))

-- If there are workers and two instants at which all of them are active, there is a reporting
-- period.
pub period_found :
    (rs : List WorkerResult) (t u : ℕ)
    → rs ≢ []
    → t < u
    → All (ActiveAt t) rs
    → All (ActiveAt u) rs
    → (p : ReportingPeriod) × (get_reporting_period rs ≡ ok p)
unfolding get_reporting_period
period_found [] t u some_worker h at_t at_u = ground (arith, some_worker)
period_found (r ∷ rs) t u some_worker h at_t at_u =
    let (a, _) =
      (narrow-common (r ∷ rs) r.execution_start (execution_end r) t).1 (at_t.0.0, at_t.0.1, at_t) in
    let (_, b) =
      (narrow-common (r ∷ rs) r.execution_start (execution_end r) u).1 (at_u.0.0, at_u.0.1, at_u) in
    period_of-some _ (omega (arith, a, b, h))
