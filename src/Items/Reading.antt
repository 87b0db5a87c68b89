-- ===== src/Items/Reading.antt =====
-- Reading an item: `read_item` of save/itemop.c. As in Items/Access, `run` is for the functions behind
-- the items, and `none` a call of what is no function, an access beyond the storage of an item, or too
-- many groups.
use smart_home_xiugai.Prelude.{
  ℕ, zero, suc, ◌+◌, ◌-◌, ◌^◌, List, none, some, [], ◌∷◌, ◌++◌, take, drop, replicate, ◌==◌, ltb,
  if◌then◌else◌, not, bit_and, u16,
}
use smart_home_xiugai.Bytes.{make_short, make_long}
use smart_home_xiugai.Bytes.Decimals.{ltobcd, hextobcd}
use smart_home_xiugai.Storage.Bin.{overwrite}
use smart_home_xiugai.Items.{Place, Target, null, handler, place, Item, Group, ItemOp}
use smart_home_xiugai.Items.Table.{
  itoflag_ro, itoflag_group, itoflag_func, itoflag_copy, itoflag_set00,
}
use smart_home_xiugai.Items.Access.{
  within, itortn_ok, itortn_invalid, itortn_opfail, Store, Outcome, Run, find_group, find_item,
}

-- The `switch` of `read_item`.
unfoldable pub read_place : {S : Type 0} → Item → Place → ℕ → ItemOp → Store S → Outcome S
unfolding within
read_place {S} i p offset op s =
    let kind = bit_and i.flag 0x0f in
    let pdata = drop offset (s.memory p) in
    let given : ℕ → List ℕ → Outcome S = λ len buf.
      if within p offset len then some (itortn_ok, record op { buf = buf }, s) else none in
    if kind == itoflag_copy
    then given i.datalen (overwrite (take i.datalen pdata) op.buf)
    else if kind == 4
    then given i.datalen (overwrite (hextobcd (take i.datalen pdata)) op.buf)
    else if kind == 6
    then given 2 (ltobcd (make_short pdata) op.buf i.datalen).0
    else if kind == 7
    then given 4 (ltobcd (make_long pdata) op.buf i.datalen).0
    else if kind == itoflag_func
    then none
    else some (itortn_invalid, op, s)

unfoldable pub read_target : {S : Type 0} → Run S → Item → Target → ℕ → ItemOp → Store S → Outcome S
read_target {S} run i t offset op s =
    let kind = bit_and i.flag 0x0f in
    let given : ℕ → Outcome S =
      λ b. some (itortn_ok, record op { buf = overwrite (replicate i.datalen b) op.buf }, s) in
    if kind == itoflag_set00
    then given 0
    else if kind == 2
    then given 0xaa
    else if kind == 3
    then given 0xff
    else elim t [
      | null ↦ if kind == itoflag_func then some (itortn_invalid, op, s) else none
      | place p ↦ read_place i p offset op s
      | handler h ↦
          let (rtn, op', s') = run h 0 op s in
          if not (kind == itoflag_func)
          then none
          else if not (rtn == itortn_ok)
          then some (itortn_invalid, op', s')
          else if ltb op'.maxlen op'.actlen
          then some (itortn_invalid, op', s')
          else some (itortn_ok, op', s')
    ]

-- The loop of `read_item` over the items before a group's own. `front` is what the buffer holds before
-- that of `bak`.
unfoldable pub read_group :
    {S : Type 0}
    → (ItemOp → Store S → Outcome S)
    → List Item
    → ItemOp
    → ItemOp
    → List ℕ
    → Store S
    → Outcome S
read_group read [] op bak front s = some (itortn_ok, record op { buf = front ++ bak.buf }, s)
read_group read (i ∷ is) op bak front s =
    if i.id == op.id
    then some (itortn_ok, record op { buf = front ++ bak.buf }, s)
    else elim (read (record bak { id = i.id; actlen = 0 }) s) [
      | none ↦ none
      | some (rtn, bak', s') ↦
          let op' = record op { actlen = u16 (op.actlen + bak'.actlen); buf = front ++ bak'.buf } in
          let next = record bak' {
            buf = drop bak'.actlen bak'.buf;
            maxlen = u16 (bak'.maxlen + 2 ^ 16 - bak'.actlen);
          } in
          let more = read_group read is op' next (front ++ take bak'.actlen bak'.buf) s' in
          if not (rtn == itortn_ok)
          then some (itortn_invalid, record op' { actlen = 0 }, s')
          else if ltb op'.maxlen op'.actlen
          then some (itortn_invalid, op', s')
          else more
    ]

-- `read_item` once the item is found.
unfoldable pub read_found :
    {S : Type 0}
    → Run S
    → (ItemOp → Store S → Outcome S)
    → Group
    → Item
    → ItemOp
    → Store S
    → Outcome S
read_found run read g i op s =
    let op' = record op { actlen = i.datalen } in
    let empty = record op { actlen = 0 } in
    if ltb op.maxlen i.datalen
    then some (itortn_invalid, op, s)
    else if bit_and i.flag itoflag_ro == 0
    then some (itortn_opfail, op, s)
    else if not (bit_and i.flag itoflag_group == 0)
    then read_group read g.items empty empty [] s
    else read_target run i i.target 0 op' s

unfoldable pub read_item : {S : Type 0} → Run S → List Group → ℕ → ItemOp → Store S → Outcome S
read_item run groups zero op s = none
read_item run groups (suc depth) op s =
    let op' = record op { actlen = 0 } in
    elim (find_group (bit_and op.id 0xfff0) groups) [
      | none ↦ some (itortn_invalid, op', s)
      | some g ↦
          if bit_and g.flag 0xf000 == 0x1000
          then some (itortn_invalid, op', s)
          else if not (op.mid == 0)
          then some (itortn_invalid, op', s)
          else elim (find_item op.id g.items) [
            | none ↦ some (itortn_invalid, op', s)
            | some i ↦ read_found run (read_item run groups depth) g i op' s
          ]
    ]
