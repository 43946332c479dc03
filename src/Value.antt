-- ===== src/Value.antt =====
-- The values of Python that the program stores and passes in a transition's `args`: what
-- `dict[str, Any]` holds. A number, a container and any other object carry the text that `str`
-- gives for them.
use vcse.Prelude.{Bool, true, false, String, Option, none, some, List, ◌==◌, string_eq}
use vcse.Number.{Number, finite}

-- `TruthStatus` of src/vcse/memory/world_state.py
pub data TruthStatus : Type 0 where
  asserted supported refuted assumed unknown : TruthStatus

pub data Value : Type 0 where
  null : Value
  boolean : Bool → Value
  num : Number → (str : String) → Value
  text : String → Value
  status : TruthStatus → Value
  -- a list, whose items are texts
  texts : (items : List String) (str : String) → Value
  -- a dict from texts to values of which only the text is read
  dict : (items : List (String × String)) (str : String) → Value
  other : (str : String) → Value

-- `TruthStatus.X.value`
unfoldable pub status_value : TruthStatus → String
status_value asserted = "ASSERTED"
status_value supported = "SUPPORTED"
status_value refuted = "REFUTED"
status_value assumed = "ASSUMED"
status_value unknown = "UNKNOWN"

-- `str(TruthStatus.X)`
unfoldable pub status_str : TruthStatus → String
status_str asserted = "TruthStatus.ASSERTED"
status_str supported = "TruthStatus.SUPPORTED"
status_str refuted = "TruthStatus.REFUTED"
status_str assumed = "TruthStatus.ASSUMED"
status_str unknown = "TruthStatus.UNKNOWN"

-- `str(value)`
unfoldable pub str : Value → String
unfolding status_str
str null = "None"
str (boolean true) = "True"
str (boolean false) = "False"
str (num n s) = s
str (text s) = s
str (status t) = status_str t
str (texts xs s) = s
str (dict xs s) = s
str (other s) = s

-- `isinstance(value, int | float)` with the number: a `bool` is an `int`.
unfoldable pub as_number : Value → Option Number
as_number (num n s) = some n
as_number (boolean true) = some (finite 1 0 0)
as_number (boolean false) = some (finite 0 0 0)
as_number _ = none

-- `value is None or value == ""`
unfoldable pub is_missing : Option Value → Bool
is_missing none = true
is_missing (some null) = true
is_missing (some (text s)) = s == ""
is_missing (some _) = false
