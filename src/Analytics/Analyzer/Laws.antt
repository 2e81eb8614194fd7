-- ===== src/Analytics/Analyzer/Laws.antt =====
-- internal/analytics/analyzer.go: the baselines after a run.
use microgate.Base.{
  ℕ, ◌-◌, ◌≡◌, ◌∙◌, refl, sym, ap, Option, none, some, List, [], ◌∷◌, if◌then◌else◌, ltb, GoString,
  GoMap, lookup, insert, lookup-insert, Distinct, str_eq, str_eq_iff, length, arith, Bool-cases,
  inl, inr,
}
use microgate.Base.Floats.{Float64}
use microgate.Analytics.State.{RouteBaseline, BackendBaseline, Analyzer}
use microgate.Analytics.Store.{
  Bucket, MemoryTrafficStore, minutes_or_empty, collect_buckets, collect_all, get_buckets,
  get_all_buckets, get_backend_buckets,
}
use microgate.Analytics.Analyzer.{
  route_baseline, backend_baseline, check_anomaly, check_rate, check_errors, check_latency,
  check_current, last, analyze_route, analyze_each, analyze_routes, analyze_backend,
  analyze_each_backend, analyze_backends, prune_anomalies, analyze,
}
use microgate.Analytics.Store.Ranges.{buckets_or_empty, collect_all-Distinct, lookup-collect_all}

-- What a run leaves of the baseline that was there.
abbrev pub updated : {B : Type 0} → Option B → List Bucket → B → Option B
updated old buckets baseline = if ltb (length buckets) 2 then old else some baseline

module _ {F : Type 0} ⦃f : Float64 F⦄ where
  -- The second analyzer has the baselines and the configuration of the first.
  abbrev Keeps : Analyzer F → Analyzer F → Type 0
  Keeps a a' =
      (a'.route_baselines ≡ a.route_baselines)
      × (a'.backend_baselines ≡ a.backend_baselines)
      × (a'.config ≡ a.config)

  Keeps-trans : (a b c : Analyzer F) → Keeps a b → Keeps b c → Keeps a c
  Keeps-trans a b c (r, s, t) (r', s', t') = (r' ∙ r, s' ∙ s, t' ∙ t)

  check_anomaly-Keeps :
      (a : Analyzer F) (route metric : GoString) (current centre deviation : F) (now : ℕ)
      → Keeps a (check_anomaly a route metric current centre deviation now)
  unfolding check_anomaly
  check_anomaly-Keeps a route metric current centre deviation now = ground arith

  check_current-Keeps :
      (a : Analyzer F) (route : GoString) (b : Bucket) (baseline : RouteBaseline F) (now : ℕ)
      → Keeps a (check_current a route b baseline now)
  unfolding check_current
  check_current-Keeps a route b baseline now =
      let rate = check_rate a route b baseline now in
      let errors = check_errors rate route b baseline now in
      Keeps-trans a rate (check_latency errors route b baseline now)
        (check_anomaly-Keeps a route _ _ _ _ now)
        (Keeps-trans rate errors (check_latency errors route b baseline now)
          (check_anomaly-Keeps rate route _ _ _ _ now)
          (check_anomaly-Keeps errors route _ _ _ _ now))

  analyze_route_lem :
      (a : Analyzer F) (route key : GoString) (buckets : List Bucket) (now : ℕ)
      → let a' = analyze_route a route buckets now in
        (lookup key a'.route_baselines ≡ (
          if str_eq route key
          then updated (lookup key a.route_baselines) buckets (route_baseline route buckets)
          else lookup key a.route_baselines))
        × (a'.backend_baselines ≡ a.backend_baselines)
        × (a'.config ≡ a.config)
  unfolding analyze_route
  analyze_route_lem a route key [] now = ground arith
  analyze_route_lem a route key (b ∷ []) now = ground arith
  analyze_route_lem a route key (b ∷ c ∷ cs) now =
      let baseline = route_baseline route (b ∷ c ∷ cs) in
      let a' = record a { route_baselines = insert route baseline a.route_baselines } in
      let (r, s, t) = check_current-Keeps a' route (last c cs) baseline now in
      (
        ap (lookup key) r
            ∙ lookup-insert route key baseline a.route_baselines
            ∙ ground (arith, str_eq_iff route key),
        s,
        t,
      )

  analyze_each_lem :
      (a : Analyzer F) (m : GoMap (List Bucket)) (key : GoString) (now : ℕ)
      → Distinct m
      → let a' = analyze_each a m now in
        let buckets = buckets_or_empty (lookup key m) in
        (lookup key a'.route_baselines
          ≡ updated (lookup key a.route_baselines) buckets (route_baseline key buckets))
        × (a'.backend_baselines ≡ a.backend_baselines)
        × (a'.config ≡ a.config)
  unfolding analyze_each lookup
  analyze_each_lem a [] key now d = ground arith
  analyze_each_lem a ((route, bs) ∷ rest) key now (new, d) =
      let (r, s, t) = analyze_route_lem a route key bs now in
      let (r', s', t') = analyze_each_lem (analyze_route a route bs now) rest key now d in
      (
        elim (Bool-cases (str_eq route key)) [
          | inr other ↦ rw other (r' ∙ rw (r, other) refl)
          | inl same ↦
              let k = (str_eq_iff route key).0 same in
              let gone : lookup key rest ≡ none = rw (sym k) new in
              rw same (r' ∙ rw (gone, r, same) (rw k refl))
        ],
        s' ∙ s,
        t' ∙ t,
      )

  analyze_backend_lem :
      (a : Analyzer F) (backend key : GoString) (buckets : List Bucket)
      → let a' = analyze_backend a backend buckets in
        (lookup key a'.backend_baselines ≡ (
          if str_eq backend key
          then updated (lookup key a.backend_baselines) buckets (backend_baseline backend buckets)
          else lookup key a.backend_baselines))
        × (a'.route_baselines ≡ a.route_baselines)
  unfolding analyze_backend
  analyze_backend_lem a backend key buckets =
      let baseline : BackendBaseline F = backend_baseline backend buckets in
      ground (arith, lookup-insert backend key baseline a.backend_baselines, str_eq_iff backend key)

  analyze_each_backend_lem :
      (a : Analyzer F) (m : GoMap (List Bucket)) (key : GoString)
      → Distinct m
      → let a' = analyze_each_backend a m in
        let buckets = buckets_or_empty (lookup key m) in
        (lookup key a'.backend_baselines
          ≡ updated (lookup key a.backend_baselines) buckets (backend_baseline key buckets))
        × (a'.route_baselines ≡ a.route_baselines)
  unfolding analyze_each_backend lookup
  analyze_each_backend_lem a [] key d = ground arith
  analyze_each_backend_lem a ((backend, bs) ∷ rest) key (new, d) =
      let (r, s) = analyze_backend_lem a backend key bs in
      let (r', s') = analyze_each_backend_lem (analyze_backend a backend bs) rest key d in
      (
        elim (Bool-cases (str_eq backend key)) [
          | inr other ↦ rw other (r' ∙ rw (r, other) refl)
          | inl same ↦
              let k = (str_eq_iff backend key).0 same in
              let gone : lookup key rest ≡ none = rw (sym k) new in
              rw same (r' ∙ rw (gone, r, same) (rw k refl))
        ],
        s' ∙ s,
      )

  -- A run of the analysis gives each route, and each backend, that has at least two buckets in the window
  -- the baseline of exactly these buckets, and leaves the baselines of the others as they were, if the maps of
  -- the store hold each key once.
  pub analyze_lem :
      (a : Analyzer F) (store : MemoryTrafficStore) (now : ℕ) (key : GoString)
      → Distinct store.routes
      → Distinct store.backends
      → let a' = analyze a store now in
        let from = now - a.config.window in
        let buckets = get_buckets store key from now in
        let served = collect_buckets (minutes_or_empty (lookup key store.backends)) from now in
        (lookup key a'.route_baselines
          ≡ updated (lookup key a.route_baselines) buckets (route_baseline key buckets))
        × (lookup key a'.backend_baselines
            ≡ updated (lookup key a.backend_baselines) served (backend_baseline key served))
  unfolding analyze prune_anomalies analyze_routes analyze_backends get_buckets get_all_buckets
      get_backend_buckets
  analyze_lem a store now key dr db =
      let from = now - a.config.window in
      let m = collect_all store.routes from now in
      let n = collect_all store.backends from now in
      let (r, s, t) =
        analyze_each_lem a m key now (collect_all-Distinct store.routes from now dr) in
      let a₁ = analyze_each a m now in
      let (r', s') =
        analyze_each_backend_lem a₁ n key (collect_all-Distinct store.backends from now db) in
      (
        ap (lookup key) s'
            ∙ r
            ∙ ap (λ bs. updated (lookup key a.route_baselines) bs (route_baseline key bs))
                (lookup-collect_all store.routes from now key dr),
        r'
            ∙ ap
                (λ old.
                  updated (lookup key old) (buckets_or_empty (lookup key n))
                    (backend_baseline key (buckets_or_empty (lookup key n))))
                s
            ∙ ap (λ bs. updated (lookup key a.backend_baselines) bs (backend_baseline key bs))
                (lookup-collect_all store.backends from now key db),
      )
