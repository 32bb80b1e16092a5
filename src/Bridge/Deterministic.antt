-- ===== src/Bridge/Deterministic.antt =====
-- pkg/bridge/deterministic.go: a script is installed in each page session, once. The text of the
-- script, a format with the seed and the time in it, is a parameter.
pub mod Once
use foxbridge.Common.{
  ℕ, String, Bool, true, false, not, ◌&&◌, ◌||◌, [], ◌∷◌, Option, none, some, string_key, nat_key,
  ◌==◌, if◌then◌else◌,
}
use foxbridge.Dict.{Dict, get, put, empty}
use foxbridge.Bridge.Json.{Json, str, flag, object}
use foxbridge.Bridge.State.{State, Env, call_juggler}

pub record DeterministicConfig : Type 0 where
  pub time_ms : ℕ
  pub seed : ℕ

abbrev pub default_seed : ℕ
default_seed = 1

abbrev pub default_time_ms : ℕ
default_time_ms = 1700000000000

unfoldable pub build_deterministic_script : (ℕ → ℕ → String) → DeterministicConfig → String
build_deterministic_script render cfg =
    if cfg.time_ms == 0 && cfg.seed == 0
    then ""
    else render (if cfg.seed == 0 then default_seed else cfg.seed)
        (if cfg.time_ms == 0 then default_time_ms else cfg.time_ms)

abbrev is_applied : Option Bool → Bool
is_applied none = false
is_applied (some b) = b

module _ {Regexp B : Type 0} where
  unfoldable pub set_deterministic_config :
      (ℕ → ℕ → String) → State Regexp B → DeterministicConfig → State Regexp B
  unfolding build_deterministic_script
  set_deterministic_config render s cfg = record s {
    deterministic_script = build_deterministic_script render cfg;
    deterministic_applied = empty;
  }

  -- Neither reply is used.
  unfoldable pub install_script : Env B → State Regexp B → String → State Regexp B
  unfolding call_juggler
  install_script env s cdp_session_id =
      let script = s.deterministic_script in
      let (s1, added) =
        call_juggler env s cdp_session_id "Page.addScriptToEvaluateOnNewDocument"
          (some (object (("script", str script) ∷ []))) in
      (call_juggler env s1 cdp_session_id "Runtime.evaluate"
        (some (object (("expression", str script) ∷ ("returnByValue", flag true) ∷ [])))).0

  unfoldable pub apply_deterministic_prelude : Env B → State Regexp B → String → State Regexp B
  unfolding install_script
  apply_deterministic_prelude env s cdp_session_id =
      if cdp_session_id == ""
        || s.deterministic_script == ""
        || is_applied (get s.deterministic_applied cdp_session_id)
      then s
      else install_script env
          (record s { deterministic_applied = put s.deterministic_applied cdp_session_id true })
          cdp_session_id
