-- ===== src/Analytics/Api/Laws.antt =====
-- internal/analytics/api.go: the history of a route.
use microgate.Base.{
  ℕ, ◌+◌, ◌-◌, ◌≡◌, ◌≢◌, ◌∙◌, refl, ap, true, false, List, [], ◌∷◌, ◌++◌, leb, GoString, lit,
  str_eq, str_eq_refl, has_prefix, trim_prefix-append, length, length-append, take, drop, keep,
  arith, Bool-cases, inl, inr,
}
use microgate.Base.Floats.{Float64}
use microgate.Http.{Request}
use microgate.Analytics.State.{hour}
use microgate.Analytics.Store.{Bucket, TrafficEvent, get_buckets}
use microgate.Analytics.Store.Laws.{recorded}
use microgate.Analytics.Store.Reads.{requests_in, counts_for, get_buckets_lem}
use microgate.Analytics.Api.{
  AnalyticsApi, HistoryPoint, Payload, history, trim_suffix, rooted, route_of, points_of, point_of,
  history_of, answer_get, reply, handle_route_history,
}

take-append : (s t : GoString) → take (length s) (s ++ t) ≡ s
take-append [] t = refl
take-append (b ∷ s) t = ap (λ l. b ∷ l) (take-append s t)

drop-append : (s t : GoString) → drop (length s) (s ++ t) ≡ t
drop-append [] t = refl
drop-append (b ∷ s) t = drop-append s t

trim_suffix-append : (s suffix : GoString) → trim_suffix (s ++ suffix) suffix ≡ s
unfolding trim_suffix
trim_suffix-append s suffix =
    let kept : length (s ++ suffix) - length suffix ≡ length s =
      omega (arith, length-append s suffix) in
    let fits : leb (length suffix) (length (s ++ suffix)) ≡ true =
      ground (arith, length-append s suffix) in
    rw (kept, fits, drop-append s suffix, str_eq_refl suffix, take-append s suffix) refl

-- A path to the history of a name.
abbrev pub history_path : GoString → GoString
history_path name = lit "/routes/" ++ (name ++ lit "/history")

route_of-history_path : (name : GoString) → route_of (history_path name) ≡ rooted name
unfolding route_of
route_of-history_path name =
    ap (λ p. rooted (trim_suffix p (lit "/history")))
      (trim_prefix-append (lit "/routes/") (name ++ lit "/history"))
    ∙ ap rooted (trim_suffix-append name (lit "/history"))

rooted-not_empty : (name : GoString) → name ≢ [] → str_eq (rooted name) [] ≡ false
unfolding rooted str_eq
rooted-not_empty [] named = absurd (named refl)
rooted-not_empty (b ∷ name) named = elim (Bool-cases (has_prefix (b ∷ name) (lit "/"))) [
  | inl with_slash ↦ rw with_slash refl
  | inr plain ↦ rw plain refl
]

-- The requests that the points of a history count.
abbrev pub counted : {F : Type 0} → List (HistoryPoint F) → ℕ
counted [] = 0
counted (p ∷ ps) = p.request_count + counted ps

counted-points_of :
    (F : Type 0) ⦃f : Float64 F⦄
    → (bs : List Bucket) → counted (points_of {F = F} bs) ≡ requests_in bs
unfolding points_of point_of
counted-points_of F [] = refl
counted-points_of F (b ∷ bs) = ap (λ n. b.request_count + n) (counted-points_of F bs)

module _ {F : Type 0} ⦃f : Float64 F⦄ where
  -- A GET of /routes/NAME/history, for a name that is not empty, answers the history of the route, NAME with a
  -- slash before it unless it has one, over the last hour; and if the store has recorded the given events,
  -- the points of the history count each event of that route whose minute is in that hour once, and no other.
  pub handle_route_history_lem :
      (encode : Payload F → GoString) (api : AnalyticsApi F) (r : Request) (now retention : ℕ)
      (es : List TrafficEvent) (name : GoString)
      → r.method ≡ lit "GET"
      → r.path ≡ history_path name
      → name ≢ []
      → api.store ≡ recorded retention es
      → let route = rooted name in
        let points = points_of {F = F} (get_buckets api.store route (now - hour) now) in
        (handle_route_history encode api r now
          ≡ reply encode (history route (now - hour) now points))
        × (counted points ≡ length (keep (counts_for route (now - hour) now) es))
  unfolding handle_route_history answer_get history_of
  handle_route_history_lem encode api r now retention es name get path named stored =
      let is_get : str_eq r.method (lit "GET") ≡ true =
        ap (λ m. str_eq m (lit "GET")) get ∙ str_eq_refl (lit "GET") in
      let route : route_of r.path ≡ rooted name = ap route_of path ∙ route_of-history_path name in
      let points = get_buckets api.store (rooted name) (now - hour) now in
      (
        rw (handle_route_history, answer_get, is_get, route, rooted-not_empty name named) refl,
        counted-points_of F points
            ∙ ap (λ s. requests_in (get_buckets s (rooted name) (now - hour) now)) stored
            ∙ (get_buckets_lem retention es (rooted name) (now - hour) now).1,
      )
