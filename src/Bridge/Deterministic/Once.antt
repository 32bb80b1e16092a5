-- ===== src/Bridge/Deterministic/Once.antt =====
-- pkg/bridge/deterministic.go: the script is installed at most once in a session.
use foxbridge.Common.{
  String, ◌≡◌, refl, ap, ◌∙◌, inl, inr, true, false, ◌||◌, arith, string_key, Bool-cases, ◌==◌,
}
use foxbridge.Dict.{get, put, get-put}
use foxbridge.Bridge.State.{State, Env, call_juggler}
use foxbridge.Bridge.Deterministic.{apply_deterministic_prelude, install_script, is_applied}

module _ {Regexp B : Type 0} (env : Env B) where
  install_script-marks :
      (s : State Regexp B) (k : String)
      → is_applied (get (install_script env s k).deterministic_applied k)
        ≡ is_applied (get s.deterministic_applied k)
  unfolding install_script call_juggler
  install_script-marks s k = refl

  marked-idle :
      (s : State Regexp B) (k : String)
      → is_applied (get s.deterministic_applied k) ≡ true
      → apply_deterministic_prelude env s k ≡ s
  unfolding apply_deterministic_prelude
  marked-idle s k h = ground arith

  abbrev marked : State Regexp B → String → State Regexp B
  marked s k = record s { deterministic_applied = put s.deterministic_applied k true }

  skipped :
      (s : State Regexp B) (k : String)
      → (k == "" || s.deterministic_script == "" || is_applied (get s.deterministic_applied k))
        ≡ true
      → apply_deterministic_prelude env s k ≡ s
  unfolding apply_deterministic_prelude
  skipped s k h = rw h

  installed :
      (s : State Regexp B) (k : String)
      → (k == "" || s.deterministic_script == "" || is_applied (get s.deterministic_applied k))
        ≡ false
      → apply_deterministic_prelude env s k ≡ install_script env (marked s k) k
  unfolding apply_deterministic_prelude
  installed s k h = rw h

  -- `applyDeterministicPrelude` for a session that it has been called for makes no further call of
  -- the backend and changes nothing.
  pub apply_deterministic_prelude_twice :
      (s : State Regexp B) (k : String)
      → apply_deterministic_prelude env (apply_deterministic_prelude env s k) k
        ≡ apply_deterministic_prelude env s k
  apply_deterministic_prelude_twice s k =
      elim (Bool-cases
        (k == "" || s.deterministic_script == "" || is_applied (get s.deterministic_applied k))) [
          | inl y ↦ ap (λ x. apply_deterministic_prelude env x k) (skipped s k y)
          | inr n ↦
              marked-idle (apply_deterministic_prelude env s k) k (
                rw (installed s k n) (install_script-marks (marked s k) k ∙ grind (arith, get-put)))
        ]
