-- ===== src/Bridge/Domains/Input.antt =====
-- pkg/bridge/input.go: `handleInput`.
use foxbridge.Common.{
  ℕ, String, Bool, false, not, List, [], ◌∷◌, ◌++◌, Option, none, some, string_key, nat_key, ◌==◌,
  if◌then◌else◌,
}
use foxbridge.Cdp.Message.{Message}
use foxbridge.Bridge.Json.{Json, str, flag, num, object, array}
use foxbridge.Bridge.Fetch.Handler.{Outcome, invalid_params}
use foxbridge.Bridge.State.{State, Env}
use foxbridge.Bridge.Domains.{method_not_found, relay}

pub record MouseEvent (F : Type 0) : Type 0 where
  pub type : String
  pub x : F
  pub y : F
  pub button : String
  pub click_count : ℕ
  pub modifiers : ℕ
  pub delta_x : F
  pub delta_y : F

pub record KeyEvent : Type 0 where
  pub type : String
  pub key : String
  pub code : String
  pub text : String
  pub windows_virtual_key_code : ℕ

pub record TouchPoint (F : Type 0) : Type 0 where
  pub x : F
  pub y : F
  pub radius_x : F
  pub radius_y : F
  pub force : F

pub record TouchEvent (F : Type 0) : Type 0 where
  pub type : String
  pub touch_points : List (TouchPoint F)
  pub modifiers : ℕ

pub record DragEvent (F : Type 0) : Type 0 where
  pub type : String
  pub x : F
  pub y : F
  pub modifiers : ℕ

-- The decoders, what is done with a float64, and `strings.ToLower`.
pub record InputCodec (F : Type 0) : Type 0 where
  pub mouse : Option String → Option (MouseEvent F)
  pub key : Option String → Option KeyEvent
  pub text : Option String → Option String
  pub touch : Option String → Option (TouchEvent F)
  pub drag : Option String → Option (DragEvent F)
  pub is_zero : F → Bool
  pub is_positive : F → Bool
  pub number : F → Json
  pub to_lower : String → String

unfoldable pub mouse_type : String → String
mouse_type type =
    if type == "mouseMoved"
    then "mousemove"
    else if type == "mousePressed"
    then "mousedown"
    else if type == "mouseReleased"
    then "mouseup"
    else if type == "mouseWheel"
    then "wheel"
    else type

unfoldable pub button_number : String → ℕ
button_number button = if button == "middle" then 1 else if button == "right" then 2 else 0

-- The mask of the buttons that are down.
unfoldable pub buttons_mask : String → ℕ → ℕ
buttons_mask type button =
    if not (type == "mousedown") then 0 else if button == 0 then 1 else if button == 1 then 4 else 2

abbrev when : Bool → String → Json → List (String × Json)
when b key json = if b then (key, json) ∷ [] else []

module _ {F : Type 0} (codec : InputCodec F) where
  unfoldable pub mouse_fields : MouseEvent F → List (String × Json)
  mouse_fields ev =
      let type = mouse_type ev.type in
      let button = button_number ev.button in
      (("type", str type)
        ∷ ("x", codec.number ev.x)
        ∷ ("y", codec.number ev.y)
        ∷ ("button", num button)
        ∷ ("clickCount", num ev.click_count)
        ∷ ("modifiers", num ev.modifiers)
        ∷ ("buttons", num (buttons_mask type button))
        ∷ [])
      ++ when (not (codec.is_zero ev.delta_x)) "deltaX" (codec.number ev.delta_x)
      ++ when (not (codec.is_zero ev.delta_y)) "deltaY" (codec.number ev.delta_y)

  unfoldable pub key_type : String → String
  key_type type = let t = codec.to_lower type in if t == "rawkeydown" then "keydown" else t

  unfoldable pub key_fields : KeyEvent → List (String × Json)
  key_fields ev =
      (("type", str (key_type ev.type))
        ∷ ("key", str ev.key)
        ∷ ("code", str ev.code)
        ∷ ("keyCode", num ev.windows_virtual_key_code)
        ∷ ("location", num 0)
        ∷ ("repeat", flag false)
        ∷ [])
      ++ when (not (ev.text == "")) "text" (str ev.text)

  unfoldable pub touch_points : List (TouchPoint F) → List Json
  touch_points [] = []
  touch_points (p ∷ l) =
      object (
        (("x", codec.number p.x) ∷ ("y", codec.number p.y) ∷ [])
        ++ when (codec.is_positive p.radius_x) "radiusX" (codec.number p.radius_x)
        ++ when (codec.is_positive p.radius_y) "radiusY" (codec.number p.radius_y)
        ++ when (codec.is_positive p.force) "force" (codec.number p.force))
      ∷ touch_points l

  unfoldable pub touch_fields : TouchEvent F → List (String × Json)
  touch_fields ev =
      ("type", str ev.type)
      ∷ ("touchPoints", array (touch_points ev.touch_points))
      ∷ ("modifiers", num ev.modifiers)
      ∷ []

  unfoldable pub drag_fields : DragEvent F → List (String × Json)
  drag_fields ev =
      ("type", str (codec.to_lower ev.type))
      ∷ ("x", codec.number ev.x)
      ∷ ("y", codec.number ev.y)
      ∷ ("modifiers", num ev.modifiers)
      ∷ []

module _ {Regexp B F : Type 0} (env : Env B) (codec : InputCodec F) where
  -- Decode, translate and call.
  abbrev dispatched :
      {P : Type 0}
      → State Regexp B
      → String
      → String
      → (P → List (String × Json))
      → Option P
      → State Regexp B × Outcome
  dispatched s session_id method fields none = (s, invalid_params)
  dispatched s session_id method fields (some p) = relay env s session_id method (fields p)

  unfoldable pub handle_input : State Regexp B → Option ℕ → Message → State Regexp B × Outcome
  handle_input s conn msg =
      if msg.method == "Input.dispatchMouseEvent"
      then dispatched s msg.session_id "Page.dispatchMouseEvent" (mouse_fields codec)
          (codec.mouse msg.params)
      else if msg.method == "Input.dispatchKeyEvent"
      then dispatched s msg.session_id "Page.dispatchKeyEvent" (key_fields codec)
          (codec.key msg.params)
      else if msg.method == "Input.insertText"
      then dispatched s msg.session_id "Page.insertText" (λ text. ("text", str text) ∷ [])
          (codec.text msg.params)
      else if msg.method == "Input.dispatchTouchEvent"
      then dispatched s msg.session_id "Page.dispatchTouchEvent" (touch_fields codec)
          (codec.touch msg.params)
      else if msg.method == "Input.dispatchDragEvent"
      then dispatched s msg.session_id "Page.dispatchDragEvent" (drag_fields codec)
          (codec.drag msg.params)
      else (s, method_not_found msg.method)
