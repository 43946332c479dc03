-- ===== src/Packs/Lifecycle/Order.antt =====
-- The statuses that transitions of src/vcse/packs/lifecycle.py lead through.
use vcse.Prelude.{
  ℕ, suc, ◌+◌, ◌≤◌, ◌<◌, ◌≡◌, refl, sym, ap, ◌∙◌, subst, true, false, Bool-cases, ◌==◌, string_eq,
  pair_eq, String, some, contains, contains-All, contains-targets, All, if◌then◌else◌, inl, inr,
  ◌⊎◌, ◌≢◌, arith,
}
use package.text.Mathlib.TextEquality.{eq_iff}
use vcse.Value.{Value, text, str}
use vcse.Dict.{Dict, set}
use vcse.Dict.Laws.{get-set_self}
use vcse.Text.Norm.{strip}
use vcse.Packs.Lifecycle.{
  PackFile, missing, not_object, object, done, allowed_transitions, load_pack_metadata, stripped,
  lifecycle_status, get_status, transition_payload, transition, check_status, assert_writable,
}

-- How many transitions a status can still go through
abbrev pub rank : String → ℕ
rank s =
    if s == "candidate" then 3 else if s == "certified" then 2 else if s == "frozen" then 1 else 0

-- What is true of each pair of the table
abbrev IsAllowed : String × String → Type 0
IsAllowed p = (rank p.1 < rank p.0) × (stripped (some (text p.1)) ≡ p.1) × ((p.1 == "") ≡ false)

all-IsAllowed : All IsAllowed allowed_transitions
unfolding stripped str strip vcse.Text.Norm.is_space
all-IsAllowed = (
  (omega arith, refl, refl),
  (
    (omega arith, refl, refl),
    (
      (omega arith, refl, refl),
      ((omega arith, refl, refl), ((omega arith, refl, refl), ((omega arith, refl, refl), tt))),
    ),
  ),
)

IsAllowed-pair : (a b : String) → contains (a, b) allowed_transitions ≡ true → IsAllowed (a, b)
IsAllowed-pair a b h = contains-All IsAllowed (a, b) allowed_transitions all-IsAllowed h

-- The payload that a transition leaves, whose status the table allows after the status before
record IsMove (payload : Dict String Value) (q : PackFile) : Type 0 where
  after : Dict String Value
  is_object : q ≡ object after
  is_allowed :
      contains (lifecycle_status payload, lifecycle_status after) allowed_transitions ≡ true

status_set :
    (payload : Dict String Value) (s : String)
    → stripped (some (text s)) ≡ s
    → (s == "") ≡ false
    → lifecycle_status (set payload "lifecycle_status" (text s)) ≡ s
unfolding lifecycle_status
status_set payload s e h =
    ground (arith, ap stripped (get-set_self payload "lifecycle_status" (text s)), e, h)

payload-IsMove :
    (s : String) (payload : Dict String Value) (q : PackFile)
    → transition_payload s payload ≡ done q
    → IsMove payload q
unfolding transition_payload
payload-IsMove s payload q h = elim (Bool-cases (lifecycle_status payload == s)) [
  | inl same ↦ ground arith
  | inr other ↦ elim (Bool-cases (contains (lifecycle_status payload, s) allowed_transitions)) [
    | inr no_pair ↦ ground arith
    | inl pair ↦
        let (smaller, e, named) = IsAllowed-pair (lifecycle_status payload) s pair in
        record {
          after = set payload "lifecycle_status" (text s);
          is_object = ground arith;
          is_allowed =
              subst (λ u. contains (lifecycle_status payload, u) allowed_transitions ≡ true)
                (sym (status_set payload s e named)) pair;
        }
  ]
]

transition-IsMove :
    (path : String) (p q : PackFile) (s : String)
    → transition path p s ≡ done q
    → (payload : Dict String Value) × (p ≡ object payload) × IsMove payload q
unfolding transition load_pack_metadata
transition-IsMove path missing q s h = cc
transition-IsMove path not_object q s h = cc
transition-IsMove path (object payload) q s h =
    (payload, refl, payload-IsMove (strip s) payload q h)

-- Transitions of one pack that are done, one after the other, with their number
pub data Transitions (path : String) (p : PackFile) : ℕ → PackFile → Type 0 where
  none_yet : Transitions path p 0 p
  one_more :
      (n : ℕ) (q r : PackFile) (s : String)
      → Transitions path p n q
      → transition path q s ≡ done r
      → Transitions path p (suc n) r

file_rank : PackFile → ℕ
file_rank (object payload) = rank (lifecycle_status payload)
file_rank _ = 0

transition_rank :
    (path : String) (p q : PackFile) (s : String)
    → transition path p s ≡ done q
    → file_rank q < file_rank p
unfolding file_rank
transition_rank path p q s h =
    let (payload, at, m) = transition-IsMove path p q s h in
    let (smaller, _, _) = IsAllowed-pair _ _ m.is_allowed in
    omega (arith, ap file_rank at, ap file_rank m.is_object, smaller)

rank_bound : (s : String) → rank s ≤ 3
rank_bound s = ground arith

file_rank_bound : (p : PackFile) → file_rank p ≤ 3
unfolding file_rank
file_rank_bound missing = omega arith
file_rank_bound not_object = omega arith
file_rank_bound (object payload) = rank_bound (lifecycle_status payload)

Transitions-rank :
    (path : String) (p : PackFile) (n : ℕ) (q : PackFile)
    → Transitions path p n q
    → n + file_rank q ≤ file_rank p
Transitions-rank path p n q none_yet = omega arith
Transitions-rank path p n q (one_more m o r s before h) =
    omega (arith, Transitions-rank path p m o before, transition_rank path o q s h)

-- At most three transitions of a pack are ever done, whatever is asked for.
pub Transitions-bound :
    (path : String) (p : PackFile) (n : ℕ) (q : PackFile) → Transitions path p n q → n ≤ 3
Transitions-bound path p n q h = omega (arith, Transitions-rank path p n q h, file_rank_bound p)

abbrev IsClosed : PackFile → Type 0
IsClosed p =
    (payload : Dict String Value) × (p ≡ object payload)
    × ((lifecycle_status payload ≡ "frozen") ⊎ (lifecycle_status payload ≡ "archived"))

frozen_next : (t : String) → contains ("frozen", t) allowed_transitions ≡ true → t ≡ "archived"
unfolding contains
frozen_next t h =
    ground (arith, eq_iff "archived" t, sym (contains-targets "frozen" t allowed_transitions) ∙ h)

archived_next : (t : String) → contains ("archived", t) allowed_transitions ≡ true → ⊥
unfolding contains
archived_next t h = cc

object_eq : {c d : Dict String Value} → object c ≡ object d → c ≡ d
object_eq k = cc

done_eq : {s t : String} → done s ≡ done t → s ≡ t
done_eq k = cc

transition-IsClosed :
    (path : String) (p q : PackFile) (s : String)
    → transition path p s ≡ done q
    → IsClosed p
    → IsClosed q
transition-IsClosed path p q s h (payload, e, status) =
    let (payload', e', m) = transition-IsMove path p q s h in
    let at = object_eq (sym e' ∙ e) in
    let pair =
      subst
        (λ u. contains (lifecycle_status u, lifecycle_status m.after) allowed_transitions ≡ true) at
        m.is_allowed in
    (
      m.after,
      m.is_object,
      inr (elim status [
        | inl frozen ↦ frozen_next _ (
            subst (λ u. contains (u, lifecycle_status m.after) allowed_transitions ≡ true) frozen
              pair)
        | inr archived ↦ absurd (
            archived_next _ (
              subst (λ u. contains (u, lifecycle_status m.after) allowed_transitions ≡ true)
                archived pair))
      ]),
    )

Transitions-IsClosed :
    (path : String) (p : PackFile) (n : ℕ) (q : PackFile)
    → Transitions path p n q
    → IsClosed p
    → IsClosed q
Transitions-IsClosed path p n q none_yet c = c
Transitions-IsClosed path p n q (one_more m o r s before h) c =
    transition-IsClosed path o q s h (Transitions-IsClosed path p m o before c)

closed_status :
    (path s : String) (u : Unit) → (s ≡ "frozen") ⊎ (s ≡ "archived") → check_status path s ≢ done u
unfolding check_status
closed_status path s u (inl e) h = ground (arith, eq_iff s "frozen")
closed_status path s u (inr e) h = ground (arith, eq_iff s "archived")

closed_refuses :
    (path : String) (p : PackFile) → IsClosed p → (u : Unit) → assert_writable path p ≢ done u
unfolding assert_writable get_status load_pack_metadata
closed_refuses path missing (payload, e, h) u k = cc
closed_refuses path not_object (payload, e, h) u k = cc
closed_refuses path (object c) (payload, e, h) u k =
    closed_status path (lifecycle_status c) u
      (subst (λ d. (lifecycle_status d ≡ "frozen") ⊎ (lifecycle_status d ≡ "archived"))
        (sym (object_eq e)) h)
      k

-- A pack that is frozen or archived is never writable again: `assert_writable` raises after
-- whatever transitions are done.
pub closed_forever :
    (path : String) (p : PackFile) (status : String) (n : ℕ) (q : PackFile)
    → get_status path p ≡ done status
    → (status ≡ "frozen") ⊎ (status ≡ "archived")
    → Transitions path p n q
    → (u : Unit) → assert_writable path q ≢ done u
unfolding get_status load_pack_metadata
closed_forever path missing status n q e h steps u = cc
closed_forever path not_object status n q e h steps u = cc
closed_forever path (object c) status n q e h steps u =
    closed_refuses path q
      (Transitions-IsClosed path (object c) n q steps
        (c, refl, subst (λ t. (t ≡ "frozen") ⊎ (t ≡ "archived")) (sym (done_eq e)) h))
      u
