-- ===== src/NoContainer.antt =====
-- The lists without a container of core/kernel/linked_list.h, in which every item points to both
-- ends of its list. A macro is used at one field of a struct; that field of every struct is a map
-- from addresses to entries.
pub mod Insert
mod Tests
use cenix.Base.{ℕ, zero, suc, Ptr, null, Option, none, some, ◌==◌, not, ◌&&◌, if◌then◌else◌}

-- LIST_NO_CONTAINER
pub record Entry : Type 0 where
  pub prev : Ptr
  pub next : Ptr
  pub start : Ptr
  pub end : Ptr

abbrev pub Entries : Type 0
Entries = Ptr → Entry

abbrev pub put : Entries → Ptr → Entry → Entries
put es p e a = if a == p then e else es a

-- `p->field.prev = q`, and the same for the other pointers
abbrev pub set_prev : Entries → Ptr → Ptr → Entries
set_prev es p q = put es p (record (es p) { prev = q })

abbrev pub set_next : Entries → Ptr → Ptr → Entries
set_next es p q = put es p (record (es p) { next = q })

abbrev pub set_start : Entries → Ptr → Ptr → Entries
set_start es p q = put es p (record (es p) { start = q })

abbrev pub set_end : Entries → Ptr → Ptr → Entries
set_end es p q = put es p (record (es p) { end = q })

-- LIST_INIT_NO_CONTAINER
unfoldable pub init : Entries → Ptr → Entries
init es c = put es c (record { prev = null; next = null; start = c; end = c })

-- LIST_INSERT_NO_CONTAINER, for a list of one item, and for a longer one
unfoldable pub insert_second : Entries → Ptr → Ptr → Entries
insert_second es c item =
    put (set_next (set_end es c item) c item) item
      (record { prev = c; next = null; start = c; end = item })

unfoldable pub insert_before_end : Entries → Ptr → Ptr → Entries
insert_before_end es c item =
    let before = (es (es c).end).prev in
    put (set_next es before item) item
      (record { prev = before; next = (es c).end; start = (es c).start; end = (es c).end })

unfoldable pub insert : Entries → Ptr → Ptr → Entries
insert es c item =
    if (es c).start == (es c).end then insert_second es c item else insert_before_end es c item

-- `for (link = p; link != NULL; link = link->field.next) link->field.start = s`; `none` means that
-- the fuel ran out.
unfoldable pub start_along : ℕ → Entries → Ptr → Ptr → Option Entries
start_along zero es p s = none
start_along (suc fuel) es p s =
    let rest = start_along fuel (set_start es p s) (es p).next s in
    if p == null then some es else rest

-- `for (link = p; link != NULL; link = link->field.prev) link->field.end = e`
unfoldable pub end_along : ℕ → Entries → Ptr → Ptr → Option Entries
end_along zero es p e = none
end_along (suc fuel) es p e =
    let rest = end_along fuel (set_end es p e) (es p).prev e in if p == null then some es else rest

abbrev pub and_then {ℓ} : {A B : Type ℓ} → Option A → (A → Option B) → Option B
and_then none f = none
and_then (some a) f = f a

-- LIST_UPDATE_ADDRESS_NO_CONTAINER
unfoldable pub update_address : ℕ → Entries → Ptr → Option Entries
update_address fuel es item =
    let es₁ = if (es item).prev == null then es else set_next es (es item).prev item in
    let es₂ = if (es₁ item).next == null then es₁ else set_prev es₁ (es₁ item).next item in
    and_then (if (es₂ item).prev == null then start_along fuel es₂ item item else some es₂)
      (λ es₃. if (es₃ item).next == null then end_along fuel es₃ item item else some es₃)

-- LIST_DELETE_NO_CONTAINER
unfoldable pub delete_start : ℕ → Entries → Ptr → Option Entries
delete_start fuel es item =
    let start = (es item).next in
    if ((es item).prev == null) && not ((es item).next == null)
    then start_along fuel (set_prev es start null) start start
    else some es

unfoldable pub delete_end : ℕ → Entries → Ptr → Option Entries
delete_end fuel es item =
    let end = (es item).prev in
    if ((es item).next == null) && not ((es item).prev == null)
    then end_along fuel (set_next es end null) end end
    else some es

unfoldable pub delete : ℕ → Entries → Ptr → Option Entries
delete fuel es item =
    let prev = (es item).prev in
    let next = (es item).next in
    let joined = set_next es prev next in
    if not (prev == null) && not (next == null)
    then some (set_prev joined (joined item).next (joined item).prev)
    else and_then (delete_start fuel es item) (λ es'. delete_end fuel es' item)
