-- ===== src/Tests/Ledger.antt =====
-- src/vcse/ledger at a small input, with a hash and a text of events that are easy to read back.
use Prim.Native.Char.{code}
use Prim.Native.String.{String, [] as nil, ◌∷◌ as cons}
use vcse.Prelude.{ℕ, ◌≡◌, refl, List, [], ◌∷◌, Option, none, some, true, string_eq, nat_eq}
use vcse.Ledger.{Content, LedgerEvent, new_event, append, verify, hash_event}
use vcse.Ledger.Chain.{append-verify}

abbrev first_code : String → ℕ
first_code nil = 0
first_code (cons c s) = code c

-- A text before `rest`, with a mark before each character and one at its end
put : String → String → String
put nil rest = cons "0" rest
put (cons c s) rest = cons "1" (cons c (put s rest))

put_option : Option String → String → String
put_option none rest = cons "0" rest
put_option (some s) rest = cons "1" (put s rest)

hash : String → String
hash x = cons "h" x

json : String → Content String → String
json p c = put p (put c.event_type (put_option c.claim_id (put_option c.pack_id c.payload)))

abbrev first_event : LedgerEvent String
first_event =
    new_event hash json "id-1" "2026-01-01"
      (record {
        event_type = "CLAIM_ADDED";
        claim_id = some "claim:1";
        pack_id = none;
        payload = "Socrates is_a Man";
      })
      "GENESIS"

-- Made for an empty ledger, and so moved when it is appended
abbrev second_event : LedgerEvent String
second_event =
    new_event hash json "id-2" "2026-01-02"
      (record {
        event_type = "CLAIM_ADDED";
        claim_id = some "claim:2";
        pack_id = none;
        payload = "Man is_a Mortal";
      })
      "GENESIS"

abbrev ledger : List (LedgerEvent String)
ledger = first_event ∷ []

ledger_verifies : (verify hash json ledger).0 ≡ true
unfolding verify new_event hash json put put_option hash_event
ledger_verifies = refl

second_made :
    second_event.event_hash ≡ hash_event hash json second_event.previous_hash second_event.content
unfolding new_event
second_made = refl

append-verify_example :
    (verify hash json (append hash json "id-3" "2026-01-02" ledger second_event).0).0 ≡ true
append-verify_example =
    append-verify hash json "id-3" "2026-01-02" ledger second_event ledger_verifies second_made

-- A hash that gives all texts one digest
one_digest : String → String
one_digest x = "digest"

abbrev told : (payload : String) → List (LedgerEvent String)
told payload =
    new_event one_digest json "id-1" "2026-01-01"
      (record {
        event_type = "CLAIM_ADDED";
        claim_id = some "claim:1";
        pack_id = none;
        payload = payload;
      })
      "GENESIS"
    ∷ []
