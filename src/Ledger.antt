-- ===== src/Ledger.antt =====
-- The ledger of src/vcse/ledger: events (events.py), their hashes (hashing.py) and the store
-- (store.py), whose file is the list of its events. `json.dumps`, SHA-256, `uuid4` and the clock are
-- parameters.
pub mod Chain
pub mod Merkle
pub mod Tamper
use vcse.Prelude.{
  ℕ, suc, String, Bool, true, not, ◌==◌, string_eq, Option, List, [], ◌∷◌, ◌++◌, is_empty,
  if◌then◌else◌,
}
use vcse.Memory.Keys.{concat}
use vcse.Text.Decimal.{show}

-- The part of an event that its hash is taken of, with a payload of type `P`
pub record Content (P : Type 0) : Type 0 where
  pub event_type : String
  pub claim_id : Option String
  pub pack_id : Option String
  pub payload : P

pub record LedgerEvent (P : Type 0) : Type 0 where
  pub event_id : String
  pub timestamp : String
  pub content : Content P
  pub previous_hash : String
  pub event_hash : String

-- `events[-1].event_hash if events else "GENESIS"`, where `previous` is the hash before the list
unfoldable pub last_hash : {P : Type 0} → String → List (LedgerEvent P) → String
last_hash previous [] = previous
last_hash previous (e ∷ es) = last_hash e.event_hash es

module _ {P : Type 0} (sha256_hex : String → String)
    (canonical_json : String → Content P → String) where
  -- `hash_event`
  unfoldable pub hash_event : String → Content P → String
  hash_event previous content = sha256_hex (canonical_json previous content)

  unfoldable pub new_event :
      (id timestamp : String) → Content P → (previous : String) → LedgerEvent P
  unfolding hash_event
  new_event id timestamp content previous = record {
    event_id = id;
    timestamp = timestamp;
    content = content;
    previous_hash = previous;
    event_hash = hash_event previous content;
  }

  -- The event that `append` stores
  unfoldable pub normalized : (id timestamp : String) → String → LedgerEvent P → LedgerEvent P
  unfolding new_event
  normalized id timestamp expected e =
      if not (e.previous_hash == expected) then new_event id timestamp e.content expected else e

  -- `append` on the events of the file, with the id and the time of an event that it makes
  unfoldable pub append :
      (id timestamp : String)
      → List (LedgerEvent P)
      → LedgerEvent P
      → List (LedgerEvent P) × LedgerEvent P
  unfolding normalized last_hash
  append id timestamp events e =
      let stored = normalized id timestamp (last_hash "GENESIS" events) e in
      (events ++ stored ∷ [], stored)

  -- The errors of one event
  unfoldable pub event_errors : ℕ → String → LedgerEvent P → List String
  event_errors index previous e =
      (if not (e.previous_hash == previous)
        then concat ("event " ∷ show index ∷ " previous_hash mismatch" ∷ []) ∷ []
        else [])
      ++ (if not (e.event_hash == hash_event previous e.content)
          then concat ("event " ∷ show index ∷ " hash mismatch" ∷ []) ∷ []
          else [])

  -- The loop of `verify`
  unfoldable pub verify_events : ℕ → String → List (LedgerEvent P) → List String
  unfolding event_errors
  verify_events index previous [] = []
  verify_events index previous (e ∷ es) =
      event_errors index previous e ++ verify_events (suc index) e.event_hash es

  -- `verify`
  unfoldable pub verify : List (LedgerEvent P) → Bool × List String
  unfolding verify_events
  verify events = let errors = verify_events 0 "GENESIS" events in (is_empty errors, errors)
