-- ===== src/Tests/Interner.antt =====
-- src/vcse/compression/interner.py at a small input.
use vcse.Prelude.{some, ◌≡◌}
use vcse.Interner.{Interner, empty_interner, intern, resolve}
use vcse.Interner.Laws.{Interned, empty, added, resolve-intern, intern_keeps}

-- "Man" and "Mortal" interned
abbrev two_texts : Interner
two_texts = (intern (intern empty_interner "Man").0 "Mortal").0

two_texts_interned : Interned two_texts
two_texts_interned = added (added empty "Man") "Mortal"

resolve-intern_example :
    resolve (intern two_texts "Socrates").0 (intern two_texts "Socrates").1 ≡ some "Socrates"
resolve-intern_example = resolve-intern two_texts_interned "Socrates"

intern_keeps_example :
    (intern (intern (intern two_texts "Man").0 "Socrates").0 "Man").1 ≡ (intern two_texts "Man").1
intern_keeps_example = intern_keeps two_texts "Man" "Socrates"
