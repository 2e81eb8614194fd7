-- ===== src/Analytics/Analyzer/Anomalies.antt =====
-- internal/analytics/analyzer.go: the anomalies that a run records and publishes.
use microgate.Base.{
  ℕ, ◌-◌, ◌*◌, ◌≤◌, ◌≡◌, refl, ◌⊎◌, inl, inr, true, List, [], ◌∷◌, ◌++◌, ltb, leb, ◌||◌, GoString,
  GoMap, length, length-append, arith, Bool-cases, In,
}
use microgate.Base.Floats.{Float64}
use microgate.Analytics.State.{Anomaly, RouteBaseline, Analyzer, hour}
use microgate.Analytics.Store.{Bucket, MemoryTrafficStore, get_all_buckets, get_backend_buckets}
use microgate.Analytics.Analyzer.{
  publish, check_anomaly, check_rate, check_errors, check_current, route_baseline, last,
  analyze_route, analyze_each, analyze_routes, analyze_backend, analyze_each_backend,
  analyze_backends, since, prune_anomalies, analyze,
}

module _ {F : Type 0} ⦃f : Float64 F⦄ where
  open f use {lt}

  -- The anomaly was in the list before, or was found now above the threshold.
  abbrev pub Known : List (Anomaly F) → F → ℕ → Anomaly F → Type 0
  Known before threshold now x =
      In x before ⊎ ((lt threshold x.z_score ≡ true) × (x.timestamp ≡ now))

  abbrev pub AllKnown : List (Anomaly F) → F → ℕ → List (Anomaly F) → Type 0
  AllKnown before threshold now [] = Unit
  AllKnown before threshold now (x ∷ xs) =
      Known before threshold now x × AllKnown before threshold now xs

  -- What every step of a run preserves.
  pub record IsFrom (before : List (Anomaly F)) (threshold : F) (now : ℕ) (a : Analyzer F)
      : Type 0 where
    pub known : AllKnown before threshold now a.anomalies
    pub room : length a.channel ≤ 64
    pub same_threshold : a.config.z_score_threshold ≡ threshold

  module _ (before : List (Anomaly F)) (threshold : F) (now : ℕ) where
    AllKnown-append :
        (xs : List (Anomaly F)) (x : Anomaly F)
        → AllKnown before threshold now xs
        → Known before threshold now x
        → AllKnown before threshold now (xs ++ (x ∷ []))
    AllKnown-append [] x h k = (k, tt)
    AllKnown-append (y ∷ xs) x (h, hs) k = (h, AllKnown-append xs x hs k)

    length-publish :
        (channel : List (Anomaly F)) (x : Anomaly F)
        → length channel ≤ 64
        → length (publish channel x) ≤ 64
    unfolding publish
    length-publish channel x h = ground (arith, length-append channel (x ∷ []))

    check_anomaly-IsFrom :
        (a : Analyzer F) (route metric : GoString) (current centre deviation : F)
        → IsFrom before threshold now a
        → IsFrom before threshold now (check_anomaly a route metric current centre deviation now)
    unfolding check_anomaly
    check_anomaly-IsFrom a route metric current centre deviation h =
        let z_score = f.div (f.sub current centre) deviation in
        let x : Anomaly F = record {
          route = route;
          metric = metric;
          current = current;
          mean = centre;
          std_dev = deviation;
          z_score = z_score;
          timestamp = now;
        } in
        elim (Bool-cases (f.eq deviation (f.of_nat 0) || f.eq centre (f.of_nat 0))) [
          | inl flat ↦ rw flat h
          | inr varies ↦ elim (Bool-cases (lt a.config.z_score_threshold z_score)) [
            | inr low ↦ rw (varies, low) h
            | inl high ↦
                let above : lt threshold x.z_score ≡ true = rw h.same_threshold at high in
                rw (varies, high)
                  (record {
                    known = AllKnown-append a.anomalies x h.known (inr (above, refl));
                    room = length-publish a.channel x h.room;
                    same_threshold = h.same_threshold;
                  })
          ]
        ]

    check_current-IsFrom :
        (a : Analyzer F) (route : GoString) (b : Bucket) (baseline : RouteBaseline F)
        → IsFrom before threshold now a
        → IsFrom before threshold now (check_current a route b baseline now)
    unfolding check_current
    check_current-IsFrom a route b baseline h =
        let rate = check_rate a route b baseline now in
        let errors = check_errors rate route b baseline now in
        check_anomaly-IsFrom errors route _ _ _ _
          (check_anomaly-IsFrom rate route _ _ _ _ (check_anomaly-IsFrom a route _ _ _ _ h))

    analyze_route-IsFrom :
        (a : Analyzer F) (route : GoString) (buckets : List Bucket)
        → IsFrom before threshold now a
        → IsFrom before threshold now (analyze_route a route buckets now)
    unfolding analyze_route
    analyze_route-IsFrom a route [] h = h
    analyze_route-IsFrom a route (b ∷ []) h = h
    analyze_route-IsFrom a route (b ∷ c ∷ cs) h =
        check_current-IsFrom _ route (last c cs) (route_baseline route (b ∷ c ∷ cs))
          (record { known = h.known; room = h.room; same_threshold = h.same_threshold })

    analyze_each-IsFrom :
        (a : Analyzer F) (m : GoMap (List Bucket))
        → IsFrom before threshold now a
        → IsFrom before threshold now (analyze_each a m now)
    unfolding analyze_each
    analyze_each-IsFrom a [] h = h
    analyze_each-IsFrom a ((route, bs) ∷ rest) h =
        analyze_each-IsFrom (analyze_route a route bs now) rest (analyze_route-IsFrom a route bs h)

    analyze_backend-IsFrom :
        (a : Analyzer F) (backend : GoString) (bs : List Bucket)
        → IsFrom before threshold now a
        → IsFrom before threshold now (analyze_backend a backend bs)
    unfolding analyze_backend
    analyze_backend-IsFrom a backend bs h = elim (Bool-cases (ltb (length bs) 2)) [
      | inl few ↦ rw few h
      | inr many ↦
          rw many (record { known = h.known; room = h.room; same_threshold = h.same_threshold })
    ]

    analyze_each_backend-IsFrom :
        (a : Analyzer F) (m : GoMap (List Bucket))
        → IsFrom before threshold now a
        → IsFrom before threshold now (analyze_each_backend a m)
    unfolding analyze_each_backend
    analyze_each_backend-IsFrom a [] h = h
    analyze_each_backend-IsFrom a ((backend, bs) ∷ rest) h =
        analyze_each_backend-IsFrom (analyze_backend a backend bs) rest
          (analyze_backend-IsFrom a backend bs h)

  -- The anomalies that are kept are no older than the cutoff.
  abbrev pub AllSince : ℕ → List (Anomaly F) → Type 0
  AllSince cutoff [] = Unit
  AllSince cutoff (x ∷ xs) = (cutoff ≤ x.timestamp) × AllSince cutoff xs

  since_lem :
      (before : List (Anomaly F)) (threshold : F) (now cutoff : ℕ) (xs : List (Anomaly F))
      → AllKnown before threshold now xs
      → AllKnown before threshold now (since cutoff xs) × AllSince cutoff (since cutoff xs)
  unfolding since
  since_lem before threshold now cutoff [] h = (tt, tt)
  since_lem before threshold now cutoff (x ∷ xs) (h, hs) =
      let (k, r) = since_lem before threshold now cutoff xs hs in
      elim (Bool-cases (leb cutoff x.timestamp)) [
        | inl fresh ↦ rw fresh ((h, k), (ground arith, r))
        | inr stale ↦ rw stale (k, r)
      ]

  AllKnown-self :
      (before : List (Anomaly F)) (threshold : F) (now : ℕ) (xs : List (Anomaly F))
      → ((x : Anomaly F) → In x xs → In x before)
      → AllKnown before threshold now xs
  AllKnown-self before threshold now [] h = tt
  AllKnown-self before threshold now (x ∷ xs) h =
      (inl (h x (inl refl)), AllKnown-self before threshold now xs (λ y m. h y (inr m)))

  -- After a run, each anomaly in the list was there before or was found in this run with a score above the
  -- threshold, and none is older than a day; and if the channel held at most 64 anomalies before, it does after:
  -- publishing never waits for a reader.
  pub anomalies_lem :
      (a : Analyzer F) (store : MemoryTrafficStore) (now : ℕ)
      → length a.channel ≤ 64
      → let a' = analyze a store now in
        AllKnown a.anomalies a.config.z_score_threshold now a'.anomalies
        × AllSince (now - 24 * hour) a'.anomalies
        × (length a'.channel ≤ 64)
  unfolding analyze prune_anomalies analyze_routes analyze_backends
  anomalies_lem a store now room =
      let threshold = a.config.z_score_threshold in
      let from = now - a.config.window in
      let m = get_all_buckets store from now in
      let start : IsFrom a.anomalies threshold now a = record {
        known = AllKnown-self a.anomalies threshold now a.anomalies (λ x m. m);
        room = room;
        same_threshold = refl;
      } in
      let routes = analyze_each-IsFrom a.anomalies threshold now a m start in
      let served =
        analyze_each_backend-IsFrom a.anomalies threshold now (analyze_each a m now)
          (get_backend_buckets store from now) routes in
      let (known, fresh) = since_lem a.anomalies threshold now (now - 24 * hour) _ served.known in
      (known, fresh, served.room)
