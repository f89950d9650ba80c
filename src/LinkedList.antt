-- ===== src/LinkedList.antt =====
-- The intrusive lists with a separate container of core/kernel/linked_list.h. A macro is used at
-- one link field of a struct; that field of every struct is a map from addresses to links, and
-- each macro is a function of the container and that map.
pub mod Shape
pub mod Queue
pub mod Remove
pub mod Moved
pub mod Stale
pub mod Elsewhere
mod Tests
use cenix.Base.{ℕ, Ptr, null, Bool, not, Option, none, some, ◌==◌, if◌then◌else◌}

-- LIST_LINK
pub record Link : Type 0 where
  pub prev : Ptr
  pub next : Ptr

-- LIST_CONTAINER
pub record Container : Type 0 where
  pub start : Ptr
  pub end : Ptr

abbrev pub Links : Type 0
Links = Ptr → Link

-- `p->field = l`
unfoldable pub write : Links → Ptr → Link → Links
write links p l a = if a == p then l else links a

-- `p->field.prev = q`
abbrev pub set_prev : Links → Ptr → Ptr → Links
set_prev links p q = write links p (record { prev = q; next = (links p).next })

-- `p->field.next = q`
abbrev pub set_next : Links → Ptr → Ptr → Links
set_next links p q = write links p (record { prev = (links p).prev; next = q })

-- LIST_INIT
unfoldable pub init : Container
init = record { start = null; end = null }

-- LIST_APPEND
unfoldable pub append : Container → Links → Ptr → Container × Links
unfolding write
append c links item =
    if c.end == null
    then (
      record { start = item; end = item },
      write links item (record { prev = null; next = null }),
    )
    else (
      record c { end = item },
      write (set_next links c.end item) item (record { prev = c.end; next = null }),
    )

-- LIST_UPDATE_ADDRESS
unfoldable pub update_address : Container → Links → Ptr → Container × Links
unfolding write
update_address c links item = front (back c links)
  where
    back : Container → Links → Container × Links
    back c links =
        if (links item).next == null
        then (record c { end = item }, links)
        else (c, set_prev links (links item).next item)

    front : Container × Links → Container × Links
    front (c, links) =
        if (links item).prev == null
        then (record c { start = item }, links)
        else (c, set_next links (links item).prev item)

-- LIST_CAN_POP
unfoldable pub can_pop : Container → Bool
can_pop c = not (c.start == null)

-- LIST_POP_FROM_START: the item popped is the macro's `variable`, `none` if it is left alone.
unfoldable pub pop_from_start : Container → Links → Option Ptr × Container × Links
unfolding write
pop_from_start c links = if c.start == null then (none, c, links) else (
  some c.start,
  record {
    start = (links c.start).next;
    end = if (links c.start).next == null then null else c.end;
  },
  write links c.start (record { prev = null; next = null }),
)

-- LIST_REMOVE
unfoldable pub remove : Container → Links → Ptr → Container × Links
unfolding write
remove c links item = back (front c links)
  where
    front : Container → Links → Container × Links
    front c links =
        if (links item).prev == null
        then (record c { start = (links item).next }, links)
        else (c, set_next links (links item).prev (links item).next)

    back : Container × Links → Container × Links
    back (c, links) =
        if (links item).next == null
        then (record c { end = (links item).prev }, links)
        else (c, set_prev links (links item).next (links item).prev)
