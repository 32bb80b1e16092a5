-- ===== src/Bridge/Fetch.antt =====
-- pkg/bridge/fetch.go: the filters of the Fetch domain. Regular expressions, JSON and the folding of
-- case are parameters: `Regexp` is the type of a compiled expression.
pub mod Filter
pub mod Calls
pub mod Handler
pub mod Guard
use foxbridge.Common.{
  ℕ, String, Bool, true, false, not, ◌&&◌, ◌||◌, List, [], ◌∷◌, ◌++◌, Option, none, some, ◌>>=◌,
  string_key, nat_key, is_some, ◌==◌, if◌then◌else◌,
}
use foxbridge.Dict.{Dict, get, put, delete, bindings}

pub record RequestPattern (Regexp : Type 0) : Type 0 where
  pub url_pattern : String
  pub resource_type : String
  pub request_stage : String
  pub url_regexp : Regexp

-- The map `fetchPatterns` of the bridge.
abbrev pub Patterns : Type 0 → Type 0
Patterns Regexp = Dict String (List (RequestPattern Regexp))

-- On the bytes of the pattern. `quote_meta` is `regexp.QuoteMeta` of a text of one byte. The bytes
-- that are written out are ^ $ . * ? and the backslash.
module _ (quote_meta : ℕ → List ℕ) where
  unfoldable pub translated : List ℕ → List ℕ
  translated [] = []
  translated (b ∷ []) =
      if b == 42
      then 46 ∷ 42 ∷ []
      else if b == 63
      then 46 ∷ []
      else if b == 92
      then 92 ∷ 92 ∷ []
      else quote_meta b
  translated (b ∷ c ∷ rest) =
      let after = translated (c ∷ rest) in
      let skipped = translated rest in
      if b == 42
      then 46 ∷ 42 ∷ after
      else if b == 63
      then 46 ∷ after
      else if b == 92
      then quote_meta c ++ skipped
      else quote_meta b ++ after

  unfoldable pub cdp_url_pattern_regexp : List ℕ → List ℕ
  unfolding translated
  cdp_url_pattern_regexp pattern = 94 ∷ translated pattern ++ 36 ∷ []

module _ {Regexp : Type 0} (quote_meta : ℕ → List ℕ) (bytes : String → List ℕ)
    (compile : List ℕ → Option Regexp)
    (decode_pattern : String → Option (String × String × String)) where
  abbrev pub or_star : String → String
  or_star url_pattern = if url_pattern == "" then "*" else url_pattern

  -- The loop of `compileFetchPatterns`, with its slice `patterns`. `none` is an error.
  unfoldable pub compile_fetch_patterns :
      List (RequestPattern Regexp) → List String → Option (List (RequestPattern Regexp))
  unfolding cdp_url_pattern_regexp
  compile_fetch_patterns patterns [] = some patterns
  compile_fetch_patterns patterns (value ∷ raw) = do
    (url_pattern, resource_type, request_stage) ← decode_pattern value
    re ← compile (cdp_url_pattern_regexp quote_meta (bytes (or_star url_pattern)))
    compile_fetch_patterns
        (patterns
          ++ record {
            url_pattern = or_star url_pattern;
            resource_type = resource_type;
            request_stage = request_stage;
            url_regexp = re;
          }
            ∷ [])
        raw

module _ {Regexp : Type 0} where
  unfoldable pub set_fetch_patterns :
      Patterns Regexp → String → List (RequestPattern Regexp) → Patterns Regexp
  set_fetch_patterns m session_id patterns = put m session_id patterns

  unfoldable pub clear_fetch_patterns : Patterns Regexp → String → Patterns Regexp
  clear_fetch_patterns m session_id = delete m session_id

  abbrev is_nonempty : List (String × List (RequestPattern Regexp)) → Bool
  is_nonempty [] = false
  is_nonempty (x ∷ l) = true

  unfoldable pub fetch_interception_enabled : Patterns Regexp → Bool
  fetch_interception_enabled m = is_nonempty (bindings m)

  -- The patterns of the session, or else those of the browser.
  abbrev pub patterns_for : Patterns Regexp → String → Option (List (RequestPattern Regexp))
  patterns_for m session_id =
      if not (is_some (get m session_id)) && not (session_id == "")
      then get m ""
      else get m session_id

  unfoldable pub fetch_enabled_for_session : Patterns Regexp → String → Bool
  fetch_enabled_for_session m session_id = is_some (patterns_for m session_id)

  module _ (match_string : Regexp → String → Bool) (equal_fold : String → String → Bool) where
    abbrev pub stage_of : RequestPattern Regexp → String
    stage_of pattern = if pattern.request_stage == "" then "Request" else pattern.request_stage

    -- One round of the loop.
    abbrev pub pauses : RequestPattern Regexp → String → String → String → Bool
    pauses pattern url resource_type request_stage =
        if not (equal_fold (stage_of pattern) request_stage)
        then false
        else if not (pattern.resource_type == "")
            && not (equal_fold pattern.resource_type resource_type)
        then false
        else match_string pattern.url_regexp url

    unfoldable pub any_pauses : List (RequestPattern Regexp) → String → String → String → Bool
    any_pauses [] url resource_type request_stage = false
    any_pauses (pattern ∷ l) url resource_type request_stage =
        let rest = any_pauses l url resource_type request_stage in
        if pauses pattern url resource_type request_stage then true else rest

    -- No pattern at all means that every request is paused, as does Fetch that is not enabled.
    abbrev pub pauses_for : Option (List (RequestPattern Regexp)) → String → String → String → Bool
    pauses_for none url resource_type request_stage = true
    pauses_for (some []) url resource_type request_stage = true
    pauses_for (some (pattern ∷ l)) url resource_type request_stage =
        any_pauses (pattern ∷ l) url resource_type request_stage

    unfoldable pub should_pause_fetch_request :
        Patterns Regexp → String → String → String → String → Bool
    unfolding any_pauses
    should_pause_fetch_request m session_id url resource_type request_stage =
        pauses_for (patterns_for m session_id) url resource_type request_stage
