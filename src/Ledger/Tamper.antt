-- ===== src/Ledger/Tamper.antt =====
-- What the last hash of a ledger that verifies (src/vcse/ledger/store.py) fixes: the texts that its
-- events are hashed in.
use vcse.Prelude.{String, ◌≡◌, ◌≢◌, List, [], ◌∷◌, Member, string_eq}
use vcse.Ledger.{Content, LedgerEvent, hash_event}

-- `reversed(xs)`, put before `acc`
onto : {A : Type 0} → List A → List A → List A
onto [] acc = acc
onto (x ∷ xs) acc = onto xs (x ∷ acc)

module _ {P : Type 0} (sha256_hex : String → String)
    (canonical_json : String → Content P → String) where
  -- The hash of the newest event of a reversed list
  newest : List (LedgerEvent P) → String
  newest [] = "GENESIS"
  newest (e ∷ es) = e.event_hash

  abbrev IsBackChain : List (LedgerEvent P) → Type 0
  IsBackChain [] = Unit {0}
  IsBackChain (e ∷ es) =
      (e.event_hash ≡ hash_event sha256_hex canonical_json (newest es) e.content) × IsBackChain es

  -- The texts that the events of a ledger are hashed in, each with the hash of the event before it
  unfoldable pub hashed_texts : (previous : String) → List (LedgerEvent P) → List String
  hashed_texts previous [] = []
  hashed_texts previous (e ∷ es) = canonical_json previous e.content ∷ hashed_texts e.event_hash es

  -- Those of a reversed list
  back_texts : List (LedgerEvent P) → List String
  back_texts [] = []
  back_texts (e ∷ es) = canonical_json (newest es) e.content ∷ back_texts es

  -- Two different texts with one hash, among those of two lists
  pub record IsClash (texts others : List String) : Type 0 where
    pub left : String
    pub right : String
    pub left_there : Member left texts
    pub right_there : Member right others
    pub differ : left ≢ right
    pub collide : sha256_hex left ≡ sha256_hex right
