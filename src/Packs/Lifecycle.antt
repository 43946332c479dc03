-- ===== src/Packs/Lifecycle.antt =====
-- `PackLifecycleManager` of src/vcse/packs/lifecycle.py, without `create_version`. A pack directory
-- is what its file pack.json holds, which is JSON here; a `PackLifecycleError` is its type and its
-- reason.
pub mod Order
use vcse.Prelude.{
  Bool, ◌==◌, string_eq, pair_eq, String, Option, none, some, List, [], ◌∷◌, contains,
  if◌then◌else◌,
}
use vcse.Value.{Value, text, str}
use vcse.Dict.{Dict, get, set}
use vcse.Text.Norm.{strip}
use vcse.Memory.Keys.{concat}

-- pack.json of a directory: it is missing, it holds no object, or the object
pub data PackFile : Type 0 where
  missing not_object : PackFile
  object : Dict String Value → PackFile

pub record PackLifecycleError : Type 0 where
  pub error_type : String
  pub reason : String

pub data Outcome (A : Type 0) : Type 0 where
  done : A → Outcome A
  failed : PackLifecycleError → Outcome A

-- `_ALLOWED_TRANSITIONS`
abbrev pub allowed_transitions : List (String × String)
allowed_transitions =
    ("candidate", "certified")
    ∷ ("candidate", "frozen")
    ∷ ("candidate", "archived")
    ∷ ("certified", "frozen")
    ∷ ("certified", "archived")
    ∷ ("frozen", "archived")
    ∷ []

unfoldable pub load_pack_metadata : (pack_path : String) → PackFile → Outcome (Dict String Value)
load_pack_metadata pack_path missing = failed (record {
  error_type = "MISSING_PACK";
  reason = concat ("missing pack.json in " ∷ pack_path ∷ []);
})
load_pack_metadata pack_path not_object = failed (record {
  error_type = "INVALID_PACK";
  reason = concat ("pack metadata must be object: " ∷ pack_path ∷ "/pack.json" ∷ []);
})
load_pack_metadata pack_path (object payload) = done payload

-- `str(value).strip()` of `payload.get(...)` with its default
unfoldable pub stripped : Option Value → String
stripped none = strip "candidate"
stripped (some v) = strip (str v)

unfoldable pub lifecycle_status : Dict String Value → String
unfolding stripped
lifecycle_status payload =
    let status = stripped (get payload "lifecycle_status") in
    if status == "" then "candidate" else status

unfoldable pub get_status : (pack_path : String) → PackFile → Outcome String
unfolding load_pack_metadata lifecycle_status
get_status pack_path file = elim (load_pack_metadata pack_path file) [
  | failed e ↦ failed e
  | done payload ↦ done (lifecycle_status payload)
]

unfoldable pub invalid_transition : (current new_status : String) → PackLifecycleError
invalid_transition current new_status = record {
  error_type = "INVALID_TRANSITION";
  reason = concat ("invalid lifecycle transition: " ∷ current ∷ " -> " ∷ new_status ∷ []);
}

-- `transition` on the payload that was read
unfoldable pub transition_payload : (new_status : String) → Dict String Value → Outcome PackFile
unfolding lifecycle_status invalid_transition
transition_payload new_status payload =
    let current = lifecycle_status payload in
    if current == new_status
    then failed (invalid_transition current new_status)
    else if contains (current, new_status) allowed_transitions
    then done (object (set payload "lifecycle_status" (text new_status)))
    else failed (invalid_transition current new_status)

-- `transition`, with the file that it leaves
unfoldable pub transition :
    (pack_path : String) → PackFile → (new_status : String) → Outcome PackFile
unfolding load_pack_metadata transition_payload
transition pack_path file new_status = elim (load_pack_metadata pack_path file) [
  | failed e ↦ failed e
  | done payload ↦ transition_payload (strip new_status) payload
]

unfoldable pub freeze_pack : (pack_path : String) → PackFile → Outcome PackFile
unfolding transition
freeze_pack pack_path file = transition pack_path file "frozen"

unfoldable pub archive_pack : (pack_path : String) → PackFile → Outcome PackFile
unfolding transition
archive_pack pack_path file = transition pack_path file "archived"

-- `assert_writable` on the status that was read
unfoldable pub check_status : (pack_path status : String) → Outcome Unit
check_status pack_path status =
    if status == "frozen"
    then failed (record {
      error_type = "PACK_FROZEN";
      reason = concat ("pack is frozen: " ∷ pack_path ∷ []);
    })
    else if status == "archived"
    then failed (record {
      error_type = "PACK_ARCHIVED";
      reason = concat ("pack is archived: " ∷ pack_path ∷ []);
    })
    else done tt

unfoldable pub assert_writable : (pack_path : String) → PackFile → Outcome Unit
unfolding get_status check_status
assert_writable pack_path file = elim (get_status pack_path file) [
  | failed e ↦ failed e
  | done status ↦ check_status pack_path status
]
