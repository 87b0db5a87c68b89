-- ===== src/Items/Access.antt =====
-- Writing an item, `write_item` of save/itemop.c, and what reading shares with it. The functions that
-- serve items are the argument `run`: from the flag (0 reads, 1 writes), the operation and the state to
-- the result, the operation and the state. `none` is a call of what is no function, an access beyond
-- the storage of an item, or a group within more groups than `depth`.
use smart_home_xiugai.Prelude.{
  ℕ, zero, suc, ◌+◌, ◌-◌, ◌*◌, ◌^◌, List, Option, none, some, [], ◌∷◌, ◌++◌, take, drop, ◌==◌, ltb,
  leb, if◌then◌else◌, Bool, not, ◌&&◌, bit_and, bit_or, u16,
}
use mathlib.Core.Logic.{ite}
use smart_home_xiugai.Bytes.{depart_short, depart_long}
use smart_home_xiugai.Bytes.Decimals.{bcdtol, bcdtohex}
use smart_home_xiugai.Storage.Bin.{overwrite}
use smart_home_xiugai.Items.{
  place_size, Handler, Place, Place-discrete, Target, null, handler, place, Item, Group, ItemOp,
}
use smart_home_xiugai.Items.Table.{
  itoflag_wo, itoflag_highlevel, itoflag_group, itoflag_func, itoflag_copy,
}

abbrev pub itortn_ok : ℕ
itortn_ok = 0

abbrev pub itortn_invalid : ℕ
itortn_invalid = 1

abbrev pub itortn_pwderr : ℕ
itortn_pwderr = 2

abbrev pub itortn_opfail : ℕ
itortn_opfail = 3

abbrev pub itemop_highlevel : ℕ
itemop_highlevel = 0x11

abbrev pub max_meter : ℕ
max_meter = 255

-- What the items stand for, `SaveFlag` of param/operation.c, and the state that is left to `run`.
pub record Store (S : Type 0) : Type 0 where
  pub memory : Place → List ℕ
  pub save_flag : ℕ
  pub rest : S

abbrev pub Outcome : Type 0 → Type 0
Outcome S = Option (ℕ × ItemOp × Store S)

abbrev pub Run : Type 0 → Type 0
Run S = Handler → ℕ → ItemOp → Store S → ℕ × ItemOp × Store S

-- The loops over `g_item_grp` and over `pitemlist`.
unfoldable pub find_group : ℕ → List Group → Option Group
find_group id [] = none
find_group id (g ∷ gs) = if id == g.id then some g else find_group id gs

unfoldable pub find_item : ℕ → List Item → Option Item
find_item id [] = none
find_item id (i ∷ is) = if id == i.id then some i else find_item id is

-- `SetSaveParamFlag` of param/operation.c.
unfoldable pub set_save_param_flag : {S : Type 0} → ℕ → Store S → Store S
set_save_param_flag flag s = record s { save_flag = bit_or s.save_flag flag }

-- `ClearSaveParamFlag` of param/operation.c; nothing here calls it.
unfoldable pub clear_save_param_flag : {S : Type 0} → Store S → Store S
clear_save_param_flag s = record s { save_flag = 0 }

-- Bytes written from an offset on, and at a place.
abbrev pub poke : ℕ → List ℕ → List ℕ → List ℕ
poke offset bytes old = take offset old ++ overwrite bytes (drop offset old)

unfoldable pub poke_place : {S : Type 0} → Place → ℕ → List ℕ → Store S → Store S
poke_place p offset bytes s = record s {
  memory = λ q. ite (Place-discrete q p) (poke offset bytes (s.memory q)) (s.memory q);
}

-- Bytes from an offset on that do not go beyond a place.
unfoldable pub within : Place → ℕ → ℕ → Bool
unfolding place_size
within p offset len = leb (offset + len) (place_size p)

-- The `switch` of `write_item`.
unfoldable pub write_place : {S : Type 0} → Item → Place → ℕ → ItemOp → Store S → Outcome S
unfolding within
write_place {S} i p offset op s =
    let kind = bit_and i.flag 0x0f in
    let bytes = take i.datalen op.buf in
    let value = bcdtol op.buf i.datalen in
    let saved : ℕ → List ℕ → Outcome S = λ len bytes.
      if within p offset len
      then some (itortn_ok, op, set_save_param_flag i.savflag (poke_place p offset bytes s))
      else none in
    if kind == itoflag_copy
    then saved i.datalen bytes
    else if kind == 4
    then saved i.datalen (bcdtohex bytes)
    else if kind == 6
    then saved 2 (depart_short (u16 value) (0 ∷ 0 ∷ []))
    else if kind == 7
    then saved 4 (depart_long value (0 ∷ 0 ∷ 0 ∷ 0 ∷ []))
    else if kind == itoflag_func
    then none
    else some (itortn_ok, op, s)

unfoldable pub write_target :
    {S : Type 0} → Run S → Item → Target → ℕ → ItemOp → Store S → Outcome S
write_target run i (place p) offset op s = write_place i p offset op s
write_target run i null offset op s =
    let kind = bit_and i.flag 0x0f in
    if kind == itoflag_func
    then some (itortn_invalid, op, s)
    else if leb 1 kind && leb kind 3
    then some (itortn_ok, op, s)
    else none
write_target run i (handler h) offset op s =
    let kind = bit_and i.flag 0x0f in
    let (rtn, op', s') = run h 1 op s in
    if kind == itoflag_func
    then some (rtn, op', if rtn == itortn_ok then set_save_param_flag i.savflag s' else s')
    else if leb 1 kind && leb kind 3
    then some (itortn_ok, op, s)
    else none

-- The loop of `write_item` over the items before a group's own; `bak` is `g_itemop_bak`.
unfoldable pub write_group :
    {S : Type 0}
    → (ItemOp → Store S → Outcome S)
    → List Item
    → ItemOp
    → ItemOp
    → ℕ
    → Store S
    → Outcome S
write_group write [] op bak fail s = some (fail, op, s)
write_group write (i ∷ is) op bak fail s =
    if i.id == op.id then some (fail, op, s) else elim (write (record bak { id = i.id }) s) [
      | none ↦ none
      | some (rtn, bak', s') ↦
          let op' = record op { actlen = u16 (op.actlen + bak'.actlen) } in
          let next = record bak' {
            buf = drop bak'.actlen bak'.buf;
            maxlen = u16 (bak'.maxlen + 2 ^ 16 - bak'.actlen);
          } in
          let more = write_group write is op' next (if rtn == 0 then fail else rtn) s' in
          if rtn == itortn_invalid
          then some (itortn_invalid, op, s')
          else if ltb op'.maxlen op'.actlen
          then some (itortn_invalid, op', s')
          else more
    ]

-- `write_item` once the item is found.
unfoldable pub write_found :
    {S : Type 0}
    → Run S
    → (ItemOp → Store S → Outcome S)
    → Group
    → ℕ
    → Item
    → ItemOp
    → Store S
    → Outcome S
write_found run write g offset i op s =
    let op' = record op { actlen = i.datalen } in
    let empty = record op { actlen = 0 } in
    if ltb op.maxlen i.datalen
    then some (itortn_invalid, op, s)
    else if bit_and i.flag itoflag_wo == 0
    then some (itortn_opfail, op', s)
    else if not (bit_and i.flag itoflag_highlevel == 0) && not (op.level == itemop_highlevel)
    then some (itortn_pwderr, op', s)
    else if not (bit_and i.flag itoflag_group == 0)
    then write_group write g.items empty empty 0 s
    else write_target run i i.target offset op' s

-- The test of the measuring point in `write_item`: the offset, if it passes.
unfoldable pub write_offset : Group → ItemOp → Option ℕ
write_offset g op =
    let kind = bit_and g.flag 0xf000 in
    if kind == 0x1000
    then (if leb max_meter op.mid then none else some (bit_and g.flag 0x0fff * op.mid))
    else if kind == 0x2000
    then (if not (op.mid == 0) && not (op.mid == 0xffff) then none else some 0)
    else if not (op.mid == 0)
    then none
    else some 0

unfoldable pub write_item : {S : Type 0} → Run S → List Group → ℕ → ItemOp → Store S → Outcome S
write_item run groups zero op s = none
write_item run groups (suc depth) op s =
    let op' = record op { actlen = 0 } in
    elim (find_group (bit_and op.id 0xfff0) groups) [
      | none ↦ some (itortn_invalid, op', s)
      | some g ↦ elim (write_offset g op) [
        | none ↦ some (itortn_invalid, op', s)
        | some offset ↦ elim (find_item op.id g.items) [
          | none ↦ some (itortn_invalid, op', s)
          | some i ↦ write_found run (write_item run groups depth) g offset i op' s
        ]
      ]
    ]
