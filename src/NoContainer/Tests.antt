-- ===== src/NoContainer/Tests.antt =====
-- The theorems on lists without a container at concrete lists.
use cenix.Base.{has, ◌∷◌, [], false, null, ◌≡◌, refl, arith}
use cenix.Kernel.State.{at}
use cenix.NoContainer.{Entries, insert}
use cenix.NoContainer.Insert.{Walk, insert-forgets}

abbrev alone : Entries
alone p = record { prev = null; next = null; start = p; end = p }

-- 8 and 16, linked
abbrev two : Entries
two =
    at (at alone 8 (record { prev = null; next = 16; start = 8; end = 16 })) 16
      (record { prev = 8; next = null; start = 8; end = 16 })

insert-forgets_example :
    Walk (insert (insert two 8 24) 8 32) 8 (8 ∷ 32 ∷ 16 ∷ []) × (has 24 (8 ∷ 32 ∷ 16 ∷ []) ≡ false)
insert-forgets_example =
    insert-forgets two 8 8 16 8 24 32 [] (refl, (refl, refl)) refl refl refl refl refl refl refl
      refl (omega arith)
