-- ===== src/Links.antt =====
-- The linked lists of original/list.c and original/include/enet/list.h. A node's address is a number,
-- and the memory gives each node its two fields. A list is the address of its sentinel.
pub mod Refinement
use enet_rs.Prelude.{ℕ, zero, suc, ◌+◌, Bool, ◌==◌, if◌then◌else◌}

-- `ENetListNode`, of all nodes.
pub record Links : Type 0 where
  pub next : ℕ → ℕ
  pub previous : ℕ → ℕ

-- A field of one node is written.
abbrev pub update : (ℕ → ℕ) → ℕ → ℕ → ℕ → ℕ
update f at v x = if x == at then v else f x

unfoldable pub set_next : ℕ → ℕ → Links → Links
set_next at v l = record l { next = update l.next at v }

unfoldable pub set_previous : ℕ → ℕ → Links → Links
set_previous at v l = record l { previous = update l.previous at v }

-- `enet_list_clear`.
unfoldable pub list_clear : ℕ → Links → Links
list_clear list l = set_previous list list (set_next list list l)

-- `enet_list_insert`.
unfoldable pub list_insert : ℕ → ℕ → Links → Links
list_insert position result l =
    let linked = set_next result position (set_previous result (l.previous position) l) in
    set_previous position result (set_next (linked.previous result) result linked)

-- `enet_list_remove`.
unfoldable pub list_remove : ℕ → Links → Links
list_remove position l =
    let skipped = set_next (l.previous position) (l.next position) l in
    set_previous (skipped.next position) (skipped.previous position) skipped

-- `enet_list_move`.
unfoldable pub list_move : ℕ → ℕ → ℕ → Links → Links
list_move position first last l =
    let cut = set_next (l.previous first) (l.next last) l in
    let closed = set_previous (cut.next last) (cut.previous first) cut in
    let placed = set_next last position (set_previous first (closed.previous position) closed) in
    set_previous position last (set_next (placed.previous first) first placed)

-- enet_list_begin, enet_list_end and enet_list_empty.
abbrev pub list_begin : ℕ → Links → ℕ
list_begin list l = l.next list

abbrev pub list_end : ℕ → ℕ
list_end list = list

abbrev pub list_empty : ℕ → Links → Bool
list_empty list l = list_begin list l == list_end list

-- The loop of `enet_list_size`, from a position on; the fuel bounds the number of steps.
unfoldable pub size_from : ℕ → ℕ → ℕ → Links → ℕ → ℕ
size_from zero list position l size = size
size_from (suc fuel) list position l size =
    let rest = size_from fuel list (l.next position) l (size + 1) in
    if position == list_end list then size else rest

-- `enet_list_size`.
unfoldable pub list_size : ℕ → ℕ → Links → ℕ
list_size fuel list l = size_from fuel list (list_begin list l) l 0
