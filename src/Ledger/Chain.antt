-- ===== src/Ledger/Chain.antt =====
-- `verify` and `append` of the ledger (src/vcse/ledger/store.py).
use vcse.Prelude.{
  ℕ, suc, String, Bool, true, ◌&&◌, ◌==◌, string_eq, ◌≡◌, ◌↔◌, refl, sym, ap, ◌∙◌, List, [], ◌∷◌,
  ◌++◌, is_empty, Bool-cases, inl, inr, arith,
}
use text.Mathlib.TextEquality.{eq_iff}
use vcse.Ledger.{
  Content, LedgerEvent, last_hash, hash_event, new_event, normalized, append, event_errors,
  verify_events, verify,
}

module _ {P : Type 0} (sha256_hex : String → String)
    (canonical_json : String → Content P → String) where
  -- Each event stands on the hash before it, and its own hash is that of this one and its content.
  abbrev pub IsChain : String → List (LedgerEvent P) → Type 0
  IsChain previous [] = Unit {0}
  IsChain previous (e ∷ es) =
      (e.previous_hash ≡ previous)
      × (e.event_hash ≡ hash_event sha256_hex canonical_json previous e.content)
      × IsChain e.event_hash es

  event_errors_iff :
      (i : ℕ) (previous : String) (e : LedgerEvent P)
      → (is_empty (event_errors sha256_hex canonical_json i previous e) ≡ true) ↔ (
          (e.previous_hash ≡ previous)
          × (e.event_hash ≡ hash_event sha256_hex canonical_json previous e.content))
  unfolding event_errors
  event_errors_iff i previous e = ground (
    arith,
    eq_iff e.previous_hash previous,
    eq_iff e.event_hash (hash_event sha256_hex canonical_json previous e.content),
  )

  is_empty-append : (xs ys : List String) → is_empty (xs ++ ys) ≡ (is_empty xs && is_empty ys)
  is_empty-append [] ys = refl
  is_empty-append (x ∷ xs) ys = refl

  both_true : (a b : Bool) → ((a && b) ≡ true) ↔ ((a ≡ true) × (b ≡ true))
  both_true a b = ground arith

  verify_events_iff :
      (i : ℕ) (previous : String) (es : List (LedgerEvent P))
      → (is_empty (verify_events sha256_hex canonical_json i previous es) ≡ true)
        ↔ IsChain previous es
  unfolding verify_events
  verify_events_iff i previous [] = ((λ _. tt), (λ _. refl))
  verify_events_iff i previous (e ∷ es) =
      let first = event_errors_iff i previous e in
      let rest = verify_events_iff (suc i) e.event_hash es in
      let split =
        is_empty-append (event_errors sha256_hex canonical_json i previous e)
          (verify_events sha256_hex canonical_json (suc i) e.event_hash es) in
      let both =
        both_true (is_empty (event_errors sha256_hex canonical_json i previous e))
          (is_empty (verify_events sha256_hex canonical_json (suc i) e.event_hash es)) in
      (
        (λ h. let (a, b) = both.0 (sym split ∙ h) in let (p, q) = first.0 a in (p, q, rest.0 b)),
        (λ (p, q, c). split ∙ both.1 (first.1 (p, q), rest.1 c)),
      )

  -- The ledger verifies if and only if it is a chain from GENESIS on.
  pub verify_iff :
      (es : List (LedgerEvent P))
      → ((verify sha256_hex canonical_json es).0 ≡ true) ↔ IsChain "GENESIS" es
  unfolding verify
  verify_iff es = verify_events_iff 0 "GENESIS" es

  IsChain-snoc :
      (previous : String) (es : List (LedgerEvent P)) (e : LedgerEvent P)
      → IsChain previous es
      → IsChain (last_hash previous es) (e ∷ [])
      → IsChain previous (es ++ e ∷ [])
  unfolding last_hash
  IsChain-snoc previous [] e h k = k
  IsChain-snoc previous (d ∷ es) e (p, q, h) k = (p, q, IsChain-snoc d.event_hash es e h k)

  normalized-IsChain :
      (id timestamp expected : String) (e : LedgerEvent P)
      → e.event_hash ≡ hash_event sha256_hex canonical_json e.previous_hash e.content
      → IsChain expected (normalized sha256_hex canonical_json id timestamp expected e ∷ [])
  unfolding normalized new_event
  normalized-IsChain id timestamp expected e made =
      elim (Bool-cases (e.previous_hash == expected)) [
        | inr other ↦ rw other (refl, refl, tt)
        | inl same ↦
            let q : e.previous_hash ≡ expected = (eq_iff e.previous_hash expected).0 same in
            rw same (q, made ∙ ap (λ x. hash_event sha256_hex canonical_json x e.content) q, tt)
      ]

  -- Appending an event that `new_event` made, for whatever previous hash, to a ledger that verifies
  -- gives one that verifies.
  pub append-verify :
      (id timestamp : String) (es : List (LedgerEvent P)) (e : LedgerEvent P)
      → (verify sha256_hex canonical_json es).0 ≡ true
      → e.event_hash ≡ hash_event sha256_hex canonical_json e.previous_hash e.content
      → (verify sha256_hex canonical_json (append sha256_hex canonical_json id timestamp es e).0).0
        ≡ true
  unfolding append
  append-verify id timestamp es e ok made =
      (verify_iff (append sha256_hex canonical_json id timestamp es e).0).1 (
        IsChain-snoc "GENESIS" es
          (normalized sha256_hex canonical_json id timestamp (last_hash "GENESIS" es) e)
          ((verify_iff es).0 ok) (normalized-IsChain id timestamp (last_hash "GENESIS" es) e made))
