-- ===== src/InitrdFs/Directory.antt =====
-- Reading a directory of the initrd entry by entry, as core/include/sys/vfs.h describes it.
use cenix.Base.{
  ℕ, zero, suc, ◌+◌, ◌≤◌, ◌<◌, Bool, true, false, ◌&&◌, ◌==◌, ltb, if◌then◌else◌, List, [], ◌∷◌,
  length, arith, ◌≡◌, refl, ap, ◌∙◌, Ptr, null, Option, none, some, ◌⊎◌, Bool-cases, inl, inr,
}
use cenix.Base.Memory.{Memory}
use cenix.Jax.{File, type_directory}
use cenix.JaxTool.{DiskEntry}
use cenix.JaxTool.RoundTrip.{IsEntry, IsAt, described, record_size}
use cenix.JaxTool.Find.{IsArchive}
use cenix.InitrdFs.{Server, Found, next_file_in_dir}
use cenix.InitrdFs.Walk.{IsDirectory, walked, walk_dir-walked, in_dir, strip, path_prefix}
use cenix.Errors.{einval}
use cenix.InitrdFs.Handlers.{entry_size, read_directory, handle_read, Contents, directory_entry}

-- The addresses of the files of the directory, in the order of the archive.
abbrev pub children : List ℕ → Ptr → List DiskEntry → List Ptr
children dir a [] = []
children dir a (e ∷ es) =
    let rest = children dir (a + record_size e) es in if in_dir dir e.name then a ∷ rest else rest

abbrev pub same : List ℕ → List ℕ → Bool
same [] [] = true
same [] (y ∷ ys) = false
same (x ∷ xs) [] = false
same (x ∷ xs) (y ∷ ys) = (x == y) && same xs ys

abbrev pub is_component : List ℕ → Option (List ℕ) → Bool
is_component text none = false
is_component text (some name) = same name text

-- The file is in the directory, and is called `text` there.
abbrev pub is_child : List ℕ → List ℕ → List ℕ → Bool
is_child dir text name = in_dir dir name && is_component text (strip (path_prefix dir) name)

-- The address of the first file of the directory with that name.
abbrev pub find_child : List ℕ → List ℕ → Ptr → List DiskEntry → Option Ptr
find_child dir text a [] = none
find_child dir text a (e ∷ es) =
    if is_child dir text e.name then some a else find_child dir text (a + record_size e) es

abbrev prepend : ℕ → Option (List ℕ) → Option (List ℕ)
prepend a none = none
prepend a (some rest) = some (a ∷ rest)

-- The inodes that a client gets that reads from `position` on and follows next_entry_position until
-- it is 0 or the read fails; `none` means that the fuel ran out.
unfoldable pub list_dir : Memory → ℕ → ℕ → Server → ℕ → File → File → ℕ → ℕ → Option (List ℕ)
list_dir m walks zero server badge junk file position size = none
list_dir m walks (suc fuel) server badge junk file position size =
    elim (handle_read m walks server badge junk file position size) [
      | none ↦ none
      | some (value, count, contents) ↦ elim contents [
        | Contents.nothing ↦ some []
        | Contents.bytes b ↦ some []
        | Contents.entry e ↦
            let rest = list_dir m walks fuel server badge junk file e.next_entry_position size in
            if e.next_entry_position == 0 then some (e.inode ∷ []) else prepend e.inode rest
      ]
    ]

-- No file of the directory is left.
pub record Missing (dir : List ℕ) (a : Ptr) (es : List DiskEntry) (f : File) : Type 0 where
  pub children : children dir a es ≡ []
  pub ended : (walked dir a es f).next ≡ null
  pub named : (text : List ℕ) → find_child dir text a es ≡ none

-- The first file of the directory in what is left of an archive.
pub record First (m : Memory) (dir : List ℕ) (a end : Ptr) (es : List DiskEntry) (f : File)
    : Type 0 where
  pub at : Ptr
  pub entry : DiskEntry
  pub rest : List DiskEntry
  pub found :
      walked dir a es f
      ≡ record { next = at + record_size entry; file = described at entry; file_address = at }
  pub archive : IsArchive m (at + record_size entry) end rest
  pub valid : IsEntry entry
  pub lies : IsAt m at end entry
  pub inside : in_dir dir entry.name ≡ true
  pub named :
      (text : List ℕ)
      → find_child dir text a es ≡ (
          if is_child dir text entry.name
          then some at
          else find_child dir text (at + record_size entry) rest)
  pub fewer : length rest < length es
  pub later : a ≤ at
  pub first : children dir a es ≡ at ∷ children dir (at + record_size entry) rest

pub children-First :
    (m : Memory) (dir : List ℕ) (a end : Ptr) (es : List DiskEntry) (f : File)
    → IsArchive m a end es
    → Missing dir a es f ⊎ First m dir a end es f
children-First m dir a end [] f h =
    inl (record { children = refl; ended = refl; named = λ text. refl })
children-First m dir a end (e ∷ es) f (v, at, h) = elim (Bool-cases (in_dir dir e.name)) [
  | inl yes_dir ↦ inr (record {
    at = a;
    entry = e;
    rest = es;
    found = rw yes_dir refl;
    archive = h;
    valid = v;
    lies = at;
    inside = yes_dir;
    named = λ text. rw yes_dir refl;
    fewer = omega arith;
    later = omega arith;
    first = rw yes_dir refl;
  })
  | inr no_dir ↦
      let is_child_no : (text : List ℕ)
          → find_child dir text a (e ∷ es) ≡ find_child dir text (a + record_size e) es =
        λ text. rw no_dir refl in
      elim (children-First m dir (a + record_size e) end es (described a e) h) [
        | inl none_left ↦ inl (record {
          children = rw no_dir none_left.children;
          ended = rw no_dir none_left.ended;
          named = λ text. is_child_no text ∙ none_left.named text;
        })
        | inr r ↦ inr (record {
          at = r.at;
          entry = r.entry;
          rest = r.rest;
          found = rw no_dir r.found;
          archive = r.archive;
          valid = r.valid;
          lies = r.lies;
          inside = r.inside;
          named = λ text. is_child_no text ∙ r.named text;
          fewer = omega (arith, r.fewer);
          later = omega (arith, r.later);
          first = rw no_dir r.first;
        })
      ]
]

-- A directory of the server's archive, of which `es` are the files from the address `a` on.
pub record Serves (m : Memory) (server : Server) (dir_file : File) (dir : List ℕ) (a : Ptr)
    (es : List DiskEntry) : Type 0 where
  pub directory : IsDirectory m dir_file dir
  pub type : (dir_file.type == type_directory) ≡ true
  pub archive : IsArchive m a server.initrd_end es
  pub start : server.initrd_start ≤ a
  pub iterator : server.iterator.start ≤ a

pub next_file_in_dir-walked :
    (m : Memory) (walks : ℕ) (server : Server) (junk dir_file : File) (dir : List ℕ) (a : Ptr)
    (es : List DiskEntry)
    → Serves m server dir_file dir a es
    → length es < walks
    → next_file_in_dir m walks dir_file a server junk ≡ some (walked dir a es junk)
unfolding next_file_in_dir
next_file_in_dir-walked m walks server junk dir_file dir a es s b =
    let inside : ltb a server.initrd_start ≡ false = ground (arith, s.start) in
    rw inside
      (walk_dir-walked m walks dir_file dir a server.initrd_end junk es s.directory s.archive b)

pub Serves-later :
    (m : Memory) (server : Server) (dir_file : File) (dir : List ℕ) (a : Ptr) (es : List DiskEntry)
    (f : File)
    → Serves m server dir_file dir a es
    → (r : First m dir a server.initrd_end es f)
    → Serves m server dir_file dir (r.at + record_size r.entry) r.rest
Serves-later m server dir_file dir a es f s r = record {
  directory = s.directory;
  type = s.type;
  archive = r.archive;
  start = omega (arith, s.start, r.later);
  iterator = omega (arith, s.iterator, r.later);
}

-- A read at a place that stands for the address `a`.
abbrev pub At : ℕ → ℕ → Ptr → Type 0
At badge position a = ((if position == 0 then badge else position) ≡ a)

handle_read-Missing :
    (m : Memory) (walks : ℕ) (server : Server) (badge : ℕ) (junk dir_file : File) (dir : List ℕ)
    (a : Ptr) (es : List DiskEntry) (position size : ℕ)
    → Serves m server dir_file dir a es
    → length es < walks
    → At badge position a
    → (walked dir a es junk).next ≡ null
    → handle_read m walks server badge junk dir_file position size
      ≡ some (einval, 0, Contents.nothing)
unfolding handle_read read_directory
handle_read-Missing m walks server badge junk dir_file dir a es position size s b at n =
    let inside : ltb a server.iterator.start ≡ false = ground (arith, s.iterator) in
    rw (s.type, at, inside, next_file_in_dir-walked m walks server junk dir_file dir a es s b, n)
      refl

handle_read-First :
    (m : Memory) (walks : ℕ) (server : Server) (badge : ℕ) (junk dir_file : File) (dir : List ℕ)
    (a : Ptr) (es : List DiskEntry) (position size : ℕ)
    → Serves m server dir_file dir a es
    → length es < walks
    → At badge position a
    → (r : First m dir a server.initrd_end es junk)
    → let next = r.at + record_size r.entry in
      let last = (walked dir next r.rest junk).next == null in
      let found : Found = record {
        next = next;
        file = described r.at r.entry;
        file_address = r.at;
      } in
      let e =
        directory_entry m dir_file found last (if ltb size entry_size then entry_size else size) in
      handle_read m walks server badge junk dir_file position size
      ≡ some (0, e.name_length + entry_size, Contents.entry e)
unfolding handle_read read_directory
handle_read-First m walks server badge junk dir_file dir a es position size s b at r =
    let inside : ltb a server.iterator.start ≡ false = ground (arith, s.iterator) in
    let next = r.at + record_size r.entry in
    let there : (next == null) ≡ false = ground arith in
    let s' = Serves-later m server dir_file dir a es junk s r in
    rw
      (
        s.type,
        at,
        inside,
        next_file_in_dir-walked m walks server junk dir_file dir a es s b ∙ ap some r.found,
        there,
        next_file_in_dir-walked m walks server junk dir_file dir next r.rest s'
            (omega (arith, r.fewer)),
      )
      refl

-- A client that reads a directory from its start, and follows next_entry_position until it is 0,
-- gets one entry for each file of the directory that lies in the archive from `a` on, in the order
-- of the archive, with the address of the file as its inode, and then stops.
pub list_dir-children :
    (m : Memory) (walks fuel : ℕ) (server : Server) (badge : ℕ) (junk dir_file : File)
    (dir : List ℕ) (a : Ptr) (es : List DiskEntry) (position size : ℕ)
    → Serves m server dir_file dir a es
    → length es < walks
    → length es < fuel
    → At badge position a
    → list_dir m walks fuel server badge junk dir_file position size ≡ some (children dir a es)
unfolding list_dir directory_entry
list_dir-children m walks zero server badge junk dir_file dir a es position size s b f at =
    absurd (omega arith)
list_dir-children m walks (suc fuel) server badge junk dir_file dir a es position size s b f at =
    elim (children-First m dir a server.initrd_end es junk s.archive) [
      | inl none_left ↦
          rw
            (
              handle_read-Missing m walks server badge junk dir_file dir a es position size s b at
                  none_left.ended,
              list_dir,
              none_left.children,
            )
            refl
      | inr r ↦
          let next = r.at + record_size r.entry in
          let there : (next == null) ≡ false = ground arith in
          let s' = Serves-later m server dir_file dir a es junk s r in
          let at_next : At badge next next = rw there refl in
          let rest =
            list_dir-children m walks fuel server badge junk dir_file dir next r.rest next size s'
              (omega (arith, r.fewer)) (omega (arith, r.fewer)) at_next in
          rw
            (
              handle_read-First m walks server badge junk dir_file dir a es position size s b at r,
              list_dir,
              r.first,
            )
            (elim (children-First m dir next server.initrd_end r.rest junk r.archive) [
              | inl none_left ↦ rw (none_left.ended, none_left.children) refl
              | inr r' ↦
                  let more : ((walked dir next r.rest junk).next == null) ≡ false =
                    ap (λ w. w.next == null) r'.found ∙ ground arith in
                  rw (more, there, rest) refl
            ])
    ]
