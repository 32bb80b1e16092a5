-- ===== src/Bridge/Fetch/Filter.antt =====
-- pkg/bridge/fetch.go: which requests the filters pause.
use foxbridge.Common.{
  String, ◌≡◌, ◌≢◌, refl, ap, sym, ◌∙◌, subst⁻¹, ◌⊎◌, inl, inr, ◌↔◌, Bool, true, List, [], ◌∷◌,
  Option, none, some, arith, string_key, Bool-cases, Option-cases, In,
}
use foxbridge.Dict.{get}
use foxbridge.Bridge.Fetch.{
  RequestPattern, Patterns, pauses, any_pauses, pauses_for, patterns_for,
  should_pause_fetch_request,
}

module _ {Regexp : Type 0} (match_string : Regexp → String → Bool)
    (equal_fold : String → String → Bool) (url resource_type request_stage : String) where
  -- The pattern is for the stage and the type of the request, and its expression matches the URL. A pattern
  -- without a stage is for the stage "Request".
  abbrev pub IsFor : RequestPattern Regexp → Type 0
  IsFor pattern =
      (((pattern.request_stage ≡ "") × (equal_fold "Request" request_stage ≡ true))
        ⊎ ((pattern.request_stage ≢ "") × (equal_fold pattern.request_stage request_stage ≡ true)))
      × ((pattern.resource_type ≡ "") ⊎ (equal_fold pattern.resource_type resource_type ≡ true))
      × (match_string pattern.url_regexp url ≡ true)

  -- The filters are those of the session, or it has none and they are those of the browser.
  abbrev pub InForce : Patterns Regexp → String → List (RequestPattern Regexp) → Type 0
  InForce m session_id l =
      (get m session_id ≡ some l) ⊎ ((get m session_id ≡ none) × (get m "" ≡ some l))

  pauses-IsFor :
      (pattern : RequestPattern Regexp)
      → (pauses match_string equal_fold pattern url resource_type request_stage ≡ true)
        ↔ IsFor pattern
  pauses-IsFor pattern = (λ h. (ground arith, ground arith, ground arith), λ h. ground arith)

  any_pauses-IsFor :
      (l : List (RequestPattern Regexp))
      → (any_pauses match_string equal_fold l url resource_type request_stage ≡ true)
        ↔ ((pattern : RequestPattern Regexp) × In pattern l × IsFor pattern)
  unfolding any_pauses
  any_pauses-IsFor [] = (λ h. ground arith, λ (p, m, f). absurd m)
  any_pauses-IsFor (p ∷ l) = (
    λ h. elim (Bool-cases (pauses match_string equal_fold p url resource_type request_stage)) [
      | inl y ↦ (p, inl refl, (pauses-IsFor p).0 y)
      | inr n ↦ let (q, m, f) = (any_pauses-IsFor l).0 (ground arith) in (q, inr m, f)
    ],
    λ (q, m, f). elim m [
      | inl e ↦ let y = (pauses-IsFor p).1 (subst⁻¹ IsFor (sym e) f) in rw y
      | inr m' ↦ let y = (any_pauses-IsFor l).1 (q, m', f) in ground arith
    ],
  )

  pauses_for-IsFor :
      (found : Option (List (RequestPattern Regexp)))
      → (pauses_for match_string equal_fold found url resource_type request_stage ≡ true) ↔ (
          (found ≡ none)
          ⊎ (found ≡ some [])
          ⊎ ((l : List (RequestPattern Regexp)) × (pattern : RequestPattern Regexp) × (found
                ≡ some l)
              × In pattern l
              × IsFor pattern))
  pauses_for-IsFor none = (λ h. inl refl, λ h. refl)
  pauses_for-IsFor (some []) = (λ h. inr (inl refl), λ h. refl)
  pauses_for-IsFor (some (p ∷ l)) = (
    λ h. let (q, m, f) = (any_pauses-IsFor (p ∷ l)).0 h in inr (inr (p ∷ l, q, refl, m, f)),
    λ h. elim h [
      | inl e ↦ cc
      | inr (inl e) ↦ cc
      | inr (inr (l', q, e, m, f)) ↦
          let e' : p ∷ l ≡ l' = ground arith in
          (any_pauses-IsFor (p ∷ l)).1 (q, subst⁻¹ (In q) e' m, f)
    ],
  )

  patterns_for-InForce :
      (m : Patterns Regexp) (session_id : String) (l : List (RequestPattern Regexp))
      → (patterns_for m session_id ≡ some l) ↔ InForce m session_id l
  patterns_for-InForce m session_id l = (λ h. ground arith, λ h. ground arith)

  -- A request is paused just when the filters in force for its session, if there are any, are an empty list
  -- or have a pattern that is for the stage and the type of the request and whose expression matches the
  -- URL. In force are the filters of the session, or, if it has none, those of the browser.
  pub should_pause_fetch_request-IsFor :
      (m : Patterns Regexp) (session_id : String)
      → (should_pause_fetch_request match_string equal_fold m session_id url resource_type
            request_stage
          ≡ true)
        ↔ ((l : List (RequestPattern Regexp))
            → InForce m session_id l
            → (l ≡ []) ⊎ ((pattern : RequestPattern Regexp) × In pattern l × IsFor pattern))
  unfolding should_pause_fetch_request
  should_pause_fetch_request-IsFor m session_id =
      let found = patterns_for m session_id in
      let paused = pauses_for-IsFor found in
      (
        λ h l f.
            let e = (patterns_for-InForce m session_id l).1 f in
            elim (paused.0 h) [
              | inl n ↦ absurd (cc (sym n ∙ e))
              | inr (inl n) ↦ inl (cc)
              | inr (inr (l', p, e', i, g)) ↦
                  let same : l' ≡ l = cc in inr (p, subst⁻¹ (In p) (sym same) i, g)
            ],
        λ h. paused.1 (elim (Option-cases found) [
          | inl n ↦ inl n
          | inr (l, e) ↦ elim (h l ((patterns_for-InForce m session_id l).0 e)) [
            | inl n ↦ inr (inl (e ∙ ap some n))
            | inr (p, i, g) ↦ inr (inr (l, p, e, i, g))
          ]
        ]),
      )
