-- ===== src/Tests/Packs.antt =====
-- src/vcse/packs on small packs.
use vcse.Prelude.{String, ◌≤◌, ◌≡◌, ◌≢◌, refl, inl, contains, [], ◌∷◌}
use vcse.Value.{text, str}
use vcse.Dict.{get, set}
use vcse.Text.Norm.{strip, is_space}
use vcse.Packs.Lifecycle.{
  PackFile, object, done, get_status, transition, assert_writable, freeze_pack, archive_pack,
}
use vcse.Packs.Lifecycle.Order.{Transitions, none_yet, one_more, Transitions-bound, closed_forever}

abbrev pack_with : String → PackFile
pack_with s = object (("id", text "general") ∷ ("lifecycle_status", text s) ∷ [])

-- Without a status, which is read as "candidate"
abbrev new_pack : PackFile
new_pack = object (("id", text "general") ∷ [])

frozen_then_archived :
    (transition "p" (pack_with "candidate") " frozen " ≡ done (pack_with "frozen"))
    × (archive_pack "p" (pack_with "frozen") ≡ done (pack_with "archived"))
    × (freeze_pack "p" new_pack ≡ done (pack_with "frozen"))
unfolding transition get strip str is_space contains set archive_pack freeze_pack
frozen_then_archived = (refl, refl, refl)

to_archived : Transitions "p" (pack_with "frozen") 1 (pack_with "archived")
unfolding transition get strip str is_space contains set
to_archived = one_more 0 (pack_with "frozen") (pack_with "archived") "archived" none_yet refl

Transitions-bound_example : 1 ≤ 3
Transitions-bound_example =
    Transitions-bound "p" (pack_with "frozen") 1 (pack_with "archived") to_archived

is_frozen : get_status "p" (pack_with "frozen") ≡ done "frozen"
unfolding get_status get strip str is_space
is_frozen = refl

closed_forever_example : assert_writable "p" (pack_with "archived") ≢ done tt
closed_forever_example =
    closed_forever "p" (pack_with "frozen") "frozen" 1 (pack_with "archived") is_frozen (inl refl)
      to_archived tt
