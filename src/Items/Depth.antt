-- ===== src/Items/Depth.antt =====
-- How deep groups lie within groups: the depth that `write_item` and `read_item` of save/itemop.c need
-- for the tables there.
use smart_home_xiugai.Prelude.{
  ℕ, suc, List, Option, none, some, ◌==◌, Bool, true, false, not, bit_and, ◌≡◌, refl,
}
use mathlib.Core.Path.{subst}
use smart_home_xiugai.Items.{Item, Group, ItemOp}
use smart_home_xiugai.Items.Table.{item_grp}
use smart_home_xiugai.Items.Access.{
  Store, Run, find_group, find_item, write_found, write_offset, write_item,
}
use smart_home_xiugai.Items.Reading.{read_found, read_item}
use smart_home_xiugai.Items.Served.{
  Given, behind_ports, all_flat, item_grp-flat, find_group-flat, write_offset-zero, item_grp-item,
  find_item-id, single-alone,
}
use smart_home_xiugai.Items.Given.{
  Serves, write_found-Given, read_found-Given, write_found-alone, read_found-alone,
}

module _ {S : Type 0} (run : Run S) where
  write_item-by_found :
      (groups : List Group) (depth : ℕ) (op : ItemOp) (s : Store S)
      → all_flat groups ≡ true
      → ((g : Group) (i : Item)
          → find_group (bit_and op.id 0xfff0) groups ≡ some g
          → find_item op.id g.items ≡ some i
          → Given
              (write_found run (write_item run groups depth) g 0 i (record op { actlen = 0 }) s))
      → Given (write_item run groups (suc depth) op s)
  unfolding write_item
  write_item-by_found groups depth op s flat found =
      by_group (find_group (bit_and op.id 0xfff0) groups) refl
    where
      by_group :
          (o : Option Group)
          → find_group (bit_and op.id 0xfff0) groups ≡ o
          → Given (write_item run groups (suc depth) op s)
      by_group none e = rw (e, write_item) tt
      by_group (some g) e = by_offset (write_offset g op) (find_item op.id g.items) refl refl
        where
          by_offset :
              (k : Option ℕ) (o : Option Item)
              → write_offset g op ≡ k
              → find_item op.id g.items ≡ o
              → Given (write_item run groups (suc depth) op s)
          by_offset none o ke oe = rw (e, write_item) (rw (ke, write_item) tt)
          by_offset (some k) none ke oe =
              rw (e, write_item) (rw (ke, write_item) (rw (oe, write_item) tt))
          by_offset (some k) (some i) ke oe =
              let zero_offset : 0 ≡ k =
                write_offset-zero g op k (find_group-flat _ groups g flat e) ke in
              rw (e, write_item)
                (rw (ke, write_item)
                  (rw (oe, write_item)
                    (subst
                      (λ (o : ℕ). Given (
                        write_found run (write_item run groups depth) g o i
                          (record op { actlen = 0 }) s))
                      zero_offset (found g i e oe))))

  read_item-by_found :
      (groups : List Group) (depth : ℕ) (op : ItemOp) (s : Store S)
      → ((g : Group) (i : Item)
          → find_group (bit_and op.id 0xfff0) groups ≡ some g
          → find_item op.id g.items ≡ some i
          → Given (read_found run (read_item run groups depth) g i (record op { actlen = 0 }) s))
      → Given (read_item run groups (suc depth) op s)
  unfolding read_item
  read_item-by_found groups depth op s found =
      by_group (find_group (bit_and op.id 0xfff0) groups) refl
    where
      by_group :
          (o : Option Group)
          → find_group (bit_and op.id 0xfff0) groups ≡ o
          → Given (read_item run groups (suc depth) op s)
      by_group none e = rw (e, read_item) tt
      by_group (some g) e =
          by_item (bit_and g.flag 0xf000 == 0x1000) (not (op.mid == 0)) (find_item op.id g.items)
            refl refl refl
        where
          by_item :
              (b c : Bool) (o : Option Item)
              → (bit_and g.flag 0xf000 == 0x1000) ≡ b
              → not (op.mid == 0) ≡ c
              → find_item op.id g.items ≡ o
              → Given (read_item run groups (suc depth) op s)
          by_item true c o be ce oe = rw (e, read_item) (rw be tt)
          by_item false true o be ce oe = rw (e, read_item) (rw (be, ce) tt)
          by_item false false none be ce oe =
              rw (e, read_item) (rw (be, ce) (rw (oe, read_item) tt))
          by_item false false (some i) be ce oe =
              rw (e, read_item) (rw (be, ce) (rw (oe, read_item) (found g i e oe)))

  write_item-Serves :
      (groups : List Group) → all_flat groups ≡ true → Serves groups (write_item run groups 1)
  write_item-Serves groups flat op s h = write_item-by_found groups 0 op s flat (λ g i grp it.
      write_found-alone run (write_item run groups 0) g i (record op { actlen = 0 }) s
        (single-alone groups op.id g i grp it h))

  read_item-Serves : (groups : List Group) → Serves groups (read_item run groups 1)
  read_item-Serves groups op s h = read_item-by_found groups 0 op s (λ g i grp it.
      read_found-alone run (read_item run groups 0) g i (record op { actlen = 0 }) s
        (single-alone groups op.id g i grp it h))

-- With two levels of depth every write and every read of the terminal's tables has an outcome, but for
-- the items 0x8780, 0x8781, 0x8782 and 0x8784 and their group 0x878F, whose storage would be behind the
-- last entry of `port`: whatever the other identifiers, the lengths, the bytes and the functions behind
-- the items, no group is met within more than one group, no storage is called as a function, and no
-- access of storage goes beyond the end of its field or array.
pub item_grp-Given :
    {S : Type 0} (run : Run S) (op : ItemOp) (s : Store S)
    → behind_ports op.id ≡ false
    → Given (write_item run item_grp 2 op s) × Given (read_item run item_grp 2 op s)
item_grp-Given run op s clear = (
  write_item-by_found run item_grp 1 op s item_grp-flat (λ g i grp it.
      write_found-Given run item_grp (write_item run item_grp 1) g i (record op { actlen = 0 }) s
        (write_item-Serves run item_grp item_grp-flat) (find_item-id op.id g.items i it)
        (item_grp-item g i op.id grp it clear)),
  read_item-by_found run item_grp 1 op s (λ g i grp it.
      read_found-Given run item_grp (read_item run item_grp 1) g i (record op { actlen = 0 }) s
        (read_item-Serves run item_grp) (find_item-id op.id g.items i it)
        (item_grp-item g i op.id grp it clear)),
)
