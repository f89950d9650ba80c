-- ===== src/LinkedList/Tests.antt =====
-- Runs of the macros on three items, and the theorems at them.
use cenix.Base.{Ptr, null, ◌≡◌, refl, List, [], ◌∷◌, arith}
use cenix.LinkedList.{Container, Links, write, append, pop_from_start, remove}
use cenix.LinkedList.Shape.{IsList}
use cenix.LinkedList.Stale.{pop-remove-stale}

abbrev blank : Links
blank a = record { prev = null; next = null }

-- 8, 16 and 24 in a row
abbrev three : Links
three =
    write
      (write (write blank 8 (record { prev = 0; next = 16 })) 16 (record { prev = 8; next = 24 }))
      24 (record { prev = 16; next = 0 })

abbrev ends : Container
ends = record { start = 8; end = 24 }

abbrev items : List Ptr
items = 8 ∷ 16 ∷ 24 ∷ []

three-IsList : IsList three ends items
unfolding write
three-IsList = record { chain = ground arith; back = ground arith; last = refl }

append_builds : (append ends three 32).0 ≡ record { start = 8; end = 32 }
unfolding append
append_builds = refl

pop-remove-stale_example :
    let (got, c', links') = pop_from_start ends three in
    ((links' 16).prev ≡ 8) × (c'.start ≡ 16) × ((remove c' links' 16).0.start ≡ 16)
pop-remove-stale_example = pop-remove-stale three ends 8 16 (24 ∷ []) three-IsList
