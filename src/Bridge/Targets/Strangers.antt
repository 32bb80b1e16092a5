-- ===== src/Bridge/Targets/Strangers.antt =====
-- pkg/bridge/target.go: a client has no say in the pages of another one, and does not see them.
use Prim.Native.String.{◌++◌ as text_append}
use foxbridge.Common.{
  ◌≢◌, ℕ, String, ◌≡◌, refl, ap, sym, ◌∙◌, subst⁻¹, inl, inr, true, false, List, [], ◌∷◌, ◌↔◌,
  Option, none, some, string_key, nat_key, ◌==◌, if◌then◌else◌, Bool-cases, arith, string_discrete,
  In,
}
use foxbridge.Cdp.Message.{Message}
use foxbridge.Cdp.Session.{SessionInfo, get_session, all_sessions}
use foxbridge.Cdp.Session.Indices.{Reach}
use foxbridge.Cdp.Session.Search.{all_sessions-iff-get_session}
use foxbridge.Bridge.Json.{object, array}
use foxbridge.Bridge.Ownership.{same}
use foxbridge.Bridge.Ownership.Queries.{owner_for_target}
use foxbridge.Bridge.Fetch.Handler.{Outcome, refused}
use foxbridge.Bridge.State.{State, Env}
use foxbridge.Bridge.Targets.{
  close_target, attach_to_target, activate_target, target_info, get_targets, handle_target,
}
use foxbridge.Bridge.Targets.Attached.{owned_target, is_listed, listed}
use foxbridge.Bridge.Targets.Replies.{TargetCodec, not_found, infos_json}

-- The methods that act on one page.
abbrev pub page_methods : List String
page_methods =
    "Target.closeTarget" ∷ "Target.attachToTarget" ∷ "Target.activateTarget"
    ∷ "Target.getTargetInfo" ∷ []

same-some : (o : Option ℕ) (c : ℕ) → same o (some c) ≡ true → o ≡ some c
same-some none c h = absurd (ground arith)
same-some (some d) c h = ground arith

module _ {Regexp B : Type 0} (s : State Regexp B) (c : ℕ) (info : SessionInfo) where
  IsOwn : Type 0
  IsOwn = ((info.type == "tab") ≡ false) × (owner_for_target s.ownership info.target_id ≡ some c)

  listed-IsOwn : is_listed s (some c) info ≡ true → IsOwn
  unfolding IsOwn owned_target
  listed-IsOwn h =
      (ground arith, same-some (owner_for_target s.ownership info.target_id) c (ground arith))

  IsOwn-listed : IsOwn → is_listed s (some c) info ≡ true
  unfolding IsOwn owned_target
  IsOwn-listed (a, b) = rw (a, b) (ground arith)

  In-listed : (l : List SessionInfo) → In info (listed s (some c) l) → In info l × IsOwn
  unfolding listed
  In-listed [] h = absurd h
  In-listed (x ∷ l) h = elim (Bool-cases (is_listed s (some c) x)) [
    | inl e ↦
        elim (subst⁻¹ (λ t. In info (if t then x ∷ listed s (some c) l else listed s (some c) l))
            (sym e) h)
          as (λ z. In info (x ∷ l) × IsOwn) [
            | inl same ↦ (inl same, listed-IsOwn (ap (λ i. is_listed s (some c) i) same ∙ e))
            | inr rest ↦ let (i, o) = In-listed l rest in (inr i, o)
          ]
    | inr e ↦
        let (i, o) = In-listed l (
          subst⁻¹ (λ t. In info (if t then x ∷ listed s (some c) l else listed s (some c) l))
            (sym e) h) in
        (inr i, o)
  ]

  listed-In : (l : List SessionInfo) → In info l → IsOwn → In info (listed s (some c) l)
  unfolding listed
  listed-In [] h o = absurd h
  listed-In (x ∷ l) (inl same) o =
      rw (ap (λ i. is_listed s (some c) i) (sym same) ∙ IsOwn-listed o) (inl same)
  listed-In (x ∷ l) (inr h) o = elim (Bool-cases (is_listed s (some c) x)) [
    | inl e ↦ rw e (inr (listed-In l h o))
    | inr e ↦ rw e (listed-In l h o)
  ]

  listed-owned :
      (l : List SessionInfo)
      → In info (listed s (some c) l) ↔ (
          In info l
          × ((info.type == "tab") ≡ false)
          × (owner_for_target s.ownership info.target_id ≡ some c))
  unfolding IsOwn
  listed-owned l =
      (λ h. let (i, o) = In-listed l h in (i, o.0, o.1), λ h. listed-In l h.0 (h.1, h.2))

module _ {Regexp B : Type 0} (env : Env B) (codec : TargetCodec)
    (other : State Regexp B → State Regexp B) (polls polls' : ℕ) where
  close_target-refused :
      (s : State Regexp B) (c : ℕ) (msg : Message) (target_id : String)
      → codec.target_id msg.params ≡ some target_id
      → owned_target s (some c) target_id ≡ false
      → close_target env codec s (some c) msg ≡ (s, not_found target_id)
  unfolding close_target
  close_target-refused s c msg target_id d n = rw (close_target, d, n) refl

  attach_to_target-refused :
      (s : State Regexp B) (c : ℕ) (msg : Message) (target_id : String)
      → codec.target_id msg.params ≡ some target_id
      → owned_target s (some c) target_id ≡ false
      → attach_to_target env codec s (some c) msg ≡ (s, refused 31999 "target not found")
  unfolding attach_to_target
  attach_to_target-refused s c msg target_id d n = rw (attach_to_target, d, n) refl

  activate_target-refused :
      (s : State Regexp B) (c : ℕ) (msg : Message) (target_id : String)
      → codec.target_id msg.params ≡ some target_id
      → owned_target s (some c) target_id ≡ false
      → activate_target env codec s (some c) msg ≡ refused 31999 "target not found"
  unfolding activate_target
  activate_target-refused s c msg target_id d n = rw (activate_target, d, n) refl

  target_info-refused :
      (s : State Regexp B) (c : ℕ) (msg : Message) (target_id : String)
      → (target_id == "") ≡ false
      → codec.target_id_or_empty msg.params ≡ target_id
      → owned_target s (some c) target_id ≡ false
      → target_info env codec s (some c) msg ≡ refused 31999 "target not found"
  unfolding target_info
  target_info-refused s c msg target_id h e n = rw (target_info, e, h, n) refl

  foreign-unowned :
      (s : State Regexp B) (c : ℕ) (target_id : String)
      → owner_for_target s.ownership target_id ≢ some c
      → owned_target s (some c) target_id ≡ false
  unfolding owned_target
  foreign-unowned s c target_id n =
      elim (Bool-cases (same (owner_for_target s.ownership target_id) (some c))) [
        | inl h ↦ absurd (n (same-some (owner_for_target s.ownership target_id) c h))
        | inr h ↦ h
      ]

  -- A client that asks to close, attach to, activate or describe a page that it does not own gets an error with
  -- the code -32000, and the state of the bridge stays as it is.
  pub handle_target-refused :
      (s : State Regexp B) (c : ℕ) (msg : Message) (target_id : String)
      → (target_id == "") ≡ false
      → codec.target_id msg.params ≡ some target_id
      → codec.target_id_or_empty msg.params ≡ target_id
      → owner_for_target s.ownership target_id ≢ some c
      → In msg.method page_methods
      → (message : String) × (handle_target env codec other polls polls' s (some c) msg
          ≡ (s, refused 31999 message))
  unfolding handle_target string_discrete
  handle_target-refused s c msg target_id h d e n (inl m) = (
    text_append "target " (text_append target_id " not found"),
    rw m (
        close_target-refused s c (record msg { method = "Target.closeTarget" }) target_id d
          (foreign-unowned s c target_id n)),
  )
  handle_target-refused s c msg target_id h d e n (inr (inl m)) = (
    "target not found",
    rw m (
        attach_to_target-refused s c (record msg { method = "Target.attachToTarget" }) target_id d
          (foreign-unowned s c target_id n)),
  )
  handle_target-refused s c msg target_id h d e n (inr (inr (inl m))) = (
    "target not found",
    rw m (
        ap (λ o. (s, o))
          (activate_target-refused s c (record msg { method = "Target.activateTarget" }) target_id d
            (foreign-unowned s c target_id n))),
  )
  handle_target-refused s c msg target_id h d e n (inr (inr (inr (inl m)))) = (
    "target not found",
    rw m (
        ap (λ o. (s, o))
          (target_info-refused s c (record msg { method = "Target.getTargetInfo" }) target_id h e
            (foreign-unowned s c target_id n))),
  )
  handle_target-refused s c msg target_id h d e n (inr (inr (inr (inr m)))) = absurd m

module _ {B : Type 0} (env : Env B) where
  -- The answer of getTargets with these sessions.
  abbrev pub target_infos : List SessionInfo → Outcome
  target_infos infos =
      (some (env.marshal (object (("targetInfos", array (infos_json infos)) ∷ []))), none)

module _ {Regexp B : Type 0} (env : Env B) (codec : TargetCodec)
    (other : State Regexp B → State Regexp B) (polls polls' : ℕ) where
  -- A client that asks for the targets is told of exactly the registered sessions that are no tab and whose
  -- target it owns, in every state whose sessions have been reached with fresh session ids. The state stays
  -- as it is.
  pub get_targets-owned :
      (s : State Regexp B) (c : ℕ) (msg : Message)
      → Reach s.sessions
      → msg.method ≡ "Target.getTargets"
      → (infos : List SessionInfo) × (handle_target env codec other polls polls' s (some c) msg
          ≡ (s, target_infos env infos))
        × ((info : SessionInfo)
            → In info infos ↔ (
                (get_session s.sessions info.session_id ≡ some info)
                × ((info.type == "tab") ≡ false)
                × (owner_for_target s.ownership info.target_id ≡ some c)))
  unfolding handle_target get_targets string_discrete
  get_targets-owned s c msg r m =
      let all = all_sessions s.sessions in
      (
        listed s (some c) all,
        rw m refl,
        λ info.
            let own = listed-owned s c info all in
            let at = all_sessions-iff-get_session info r in
            (
              λ h. let (i, t, o) = own.0 h in (at.0 i, t, o),
              λ (g, t, o). own.1 (at.1 info.session_id g, t, o),
            ),
      )
