-- ===== src/Items/Written.antt =====
-- What a write leaves: the item that a later read gives, and nothing without the level it needs.
use smart_home_xiugai.Prelude.{
  ℕ, suc, ◌+◌, ◌<◌, ◌≤◌, List, Option, none, some, take, drop, length, ◌==◌, ltb, leb, true, false,
  bit_and, ◌≡◌, ◌≢◌, ◌⊎◌, refl, ap, ◌∙◌, inl, inr, arith, Bool-cases, length-take, take-append_left,
  take-take,
}
use mathlib.Core.Logic.{if_pos, if_neg}
use smart_home_xiugai.Storage.Bin.{overwrite}
use smart_home_xiugai.Items.{place_size, Place, Place-discrete, place, Item, Group, ItemOp}
use smart_home_xiugai.Items.Table.{itoflag_wo, itoflag_wr, itoflag_highlevel, itoflag_copy}
use smart_home_xiugai.Items.Access.{
  Store, Outcome, Run, itortn_ok, itortn_invalid, itemop_highlevel, find_group, find_item, within,
  set_save_param_flag, poke, poke_place, write_place, write_target, write_found, write_offset,
  write_item,
}
use smart_home_xiugai.Items.Reading.{read_place, read_target, read_found, read_item}

module _ {S : Type 0} (run : Run S) (groups : List Group) (depth : ℕ) where
  -- Both accesses, once group and item are found.
  write_item-found :
      (op : ItemOp) (s : Store S) (g : Group) (i : Item) (offset : ℕ)
      → find_group (bit_and op.id 0xfff0) groups ≡ some g
      → write_offset g op ≡ some offset
      → find_item op.id g.items ≡ some i
      → write_item run groups (suc depth) op s
        ≡ write_found run (write_item run groups depth) g offset i (record op { actlen = 0 }) s
  unfolding write_item
  write_item-found op s g i offset grp off it =
      rw (grp, write_item) (rw (off, write_item) (rw (it, write_item) refl))

  read_item-found :
      (op : ItemOp) (s : Store S) (g : Group) (i : Item)
      → find_group (bit_and op.id 0xfff0) groups ≡ some g
      → (bit_and g.flag 0xf000 == 0x1000) ≡ false
      → op.mid ≡ 0
      → find_item op.id g.items ≡ some i
      → read_item run groups (suc depth) op s
        ≡ read_found run (read_item run groups depth) g i (record op { actlen = 0 }) s
  unfolding read_item
  read_item-found op s g i grp kind mid it =
      let term : (op.mid == 0) ≡ true = ground (arith, mid) in
      rw (grp, read_item) (rw (kind, term) (rw (it, read_item) refl))

-- An item that is copied to and from a place: the flags, and who may write it.
abbrev pub Copied : Item → ℕ → Type 0
Copied i level =
    (i.flag ≡ itoflag_wr + itoflag_copy)
    ⊎ ((i.flag ≡ itoflag_wr + itoflag_highlevel + itoflag_copy) × (level ≡ itemop_highlevel))

module _ {S : Type 0} (run : Run S) where
  write_found-Copied :
      (write : ItemOp → Store S → Outcome S) (g : Group) (i : Item) (p : Place) (op : ItemOp)
      (s : Store S)
      → Copied i op.level
      → i.target ≡ place p
      → i.datalen ≤ place_size p
      → i.datalen ≤ op.maxlen
      → write_found run write g 0 i op s
        ≡ some (
          itortn_ok,
          record op { actlen = i.datalen },
          set_save_param_flag i.savflag (poke_place p 0 (take i.datalen op.buf) s),
        )
  unfolding write_found write_target write_place within
  write_found-Copied write g i p op s (inl flag) target stored fits =
      let there : leb (0 + i.datalen) (place_size p) ≡ true = ground arith in
      let room : ltb op.maxlen i.datalen ≡ false = ground arith in
      rw (room, flag, target) (rw there refl)
  write_found-Copied write g i p op s (inr (flag, level)) target stored fits =
      let there : leb (0 + i.datalen) (place_size p) ≡ true = ground arith in
      let room : ltb op.maxlen i.datalen ≡ false = ground arith in
      rw (room, flag, level, target) (rw there refl)

  read_found-Copied :
      (read : ItemOp → Store S → Outcome S) (g : Group) (i : Item) (p : Place) (op : ItemOp)
      (s : Store S) (level : ℕ)
      → Copied i level
      → i.target ≡ place p
      → i.datalen ≤ place_size p
      → i.datalen ≤ op.maxlen
      → read_found run read g i op s
        ≡ some (
          itortn_ok,
          record op { actlen = i.datalen; buf = overwrite (take i.datalen (s.memory p)) op.buf },
          s,
        )
  unfolding read_found read_target read_place within
  read_found-Copied read g i p op s level (inl flag) target stored fits =
      let there : leb (0 + i.datalen) (place_size p) ≡ true = ground arith in
      let room : ltb op.maxlen i.datalen ≡ false = ground arith in
      rw (room, flag, target) (rw (flag, read_place) (rw there refl))
  read_found-Copied read g i p op s level (inr (flag, high)) target stored fits =
      let there : leb (0 + i.datalen) (place_size p) ≡ true = ground arith in
      let room : ltb op.maxlen i.datalen ≡ false = ground arith in
      rw (room, flag, target) (rw (flag, read_place) (rw there refl))

-- A write of an item in storage succeeds, no place but the item's has changed, and the next read of the
-- item gives the bytes written. It holds for an item that may be read and written and is copied, with the
-- high level in the operation that writes if the item asks for it; whose storage is long enough; in a
-- group without a flag; and for operations with the measuring point 0 whose length is enough for the
-- item, where the writing one has as many bytes as its length says.
pub read_item-write_item :
    {S : Type 0} (run : Run S) (groups : List Group) (depth : ℕ) (op later : ItemOp) (s : Store S)
    (g : Group) (i : Item) (p q : Place)
    → find_group (bit_and op.id 0xfff0) groups ≡ some g
    → find_item op.id g.items ≡ some i
    → g.flag ≡ 0
    → Copied i op.level
    → i.target ≡ place p
    → i.datalen ≤ place_size p
    → op.mid ≡ 0
    → i.datalen ≤ op.maxlen
    → op.maxlen ≤ length op.buf
    → later.id ≡ op.id
    → later.mid ≡ 0
    → i.datalen ≤ later.maxlen
    → q ≢ p
    → (s' : Store S) × (write_item run groups (suc depth) op s
        ≡ some (itortn_ok, record op { actlen = i.datalen }, s'))
      × (read_item run groups (suc depth) later s'
          ≡ some (
            itortn_ok,
            record later { actlen = i.datalen; buf = overwrite (take i.datalen op.buf) later.buf },
            s',
          ))
      × (s'.memory q ≡ s.memory q)
unfolding poke_place set_save_param_flag write_offset
read_item-write_item {S} run groups depth op later s g i p q grp it term copied target stored mid
      fits whole same mid' fits' other =
    let bytes : List ℕ = take i.datalen op.buf in
    let s' : Store S = set_save_param_flag i.savflag (poke_place p 0 bytes s) in
    let none_of : (op.mid == 0) ≡ true = ground (arith, mid) in
    let off : write_offset g op ≡ some 0 = rw term (rw none_of refl) in
    let plain : (bit_and g.flag 0xf000 == 0x1000) ≡ false = rw term refl in
    let there : s'.memory p ≡ overwrite bytes (s.memory p) =
      if_pos (Place-discrete p p) (refl {a = p}) (poke 0 bytes (s.memory p)) (s.memory p) in
    let taken : take i.datalen (s'.memory p) ≡ bytes =
      ap (take i.datalen) there
      ∙ take-append_left bytes (drop (length bytes) (s.memory p)) i.datalen
          (omega (arith, length-take i.datalen op.buf))
      ∙ take-take i.datalen i.datalen op.buf (omega arith) in
    let grp' : find_group (bit_and later.id 0xfff0) groups ≡ some g =
      ap (λ (k : ℕ). find_group (bit_and k 0xfff0) groups) same ∙ grp in
    let it' : find_item later.id g.items ≡ some i = ap (λ (k : ℕ). find_item k g.items) same ∙ it in
    (
      s',
      write_item-found run groups depth op s g i 0 grp off it
          ∙ write_found-Copied run (write_item run groups depth) g i p (record op { actlen = 0 }) s
              copied target stored fits,
      read_item-found run groups depth later s' g i grp' plain mid' it'
          ∙ read_found-Copied run (read_item run groups depth) g i p (record later { actlen = 0 })
              s' op.level copied target stored fits'
          ∙ ap
              (λ (l : List ℕ).
                some
                  (itortn_ok, record later { actlen = i.datalen; buf = overwrite l later.buf }, s'))
              taken,
      if_neg (Place-discrete q p) other (poke 0 bytes (s.memory q)) (s.memory q),
    )

-- An error that leaves the state alone.
abbrev pub Refused : {S : Type 0} → Store S → Outcome S → Type 0
Refused s none = ⊥
Refused s (some (rtn, op, s')) = (0 < rtn) × (s' ≡ s)

write_found-Refused :
    {S : Type 0} (run : Run S) (write : ItemOp → Store S → Outcome S) (g : Group) (offset : ℕ)
    (i : Item) (op : ItemOp) (s : Store S)
    → (bit_and i.flag itoflag_highlevel == 0) ≡ false
    → op.level ≢ itemop_highlevel
    → Refused s (write_found run write g offset i op s)
unfolding write_found
write_found-Refused run write g offset i op s high low =
    let level : (op.level == itemop_highlevel) ≡ false = ground (arith, low) in
    elim (Bool-cases (ltb op.maxlen i.datalen)) [
      | inl small ↦ rw small (omega arith, refl)
      | inr room ↦ elim (Bool-cases (bit_and i.flag itoflag_wo == 0)) [
        | inl fixed ↦ rw (room, fixed) (omega arith, refl)
        | inr writable ↦ rw (room, writable, high, level) (omega arith, refl)
      ]
    ]

-- Without the high level an item that asks for it is not written, in a group or alone, whatever else
-- the operation holds: the result is an error and the state is as before.
pub write_item-Refused :
    {S : Type 0} (run : Run S) (groups : List Group) (depth : ℕ) (op : ItemOp) (s : Store S)
    (g : Group) (i : Item)
    → find_group (bit_and op.id 0xfff0) groups ≡ some g
    → find_item op.id g.items ≡ some i
    → (bit_and i.flag itoflag_highlevel == 0) ≡ false
    → op.level ≢ itemop_highlevel
    → Refused s (write_item run groups (suc depth) op s)
write_item-Refused {S} run groups depth op s g i grp it high low =
    by_offset (write_offset g op) refl
  where
    by_offset :
        (o : Option ℕ) → write_offset g op ≡ o → Refused s (write_item run groups (suc depth) op s)
    by_offset none e =
        let out : write_item run groups (suc depth) op s
            ≡ some (itortn_invalid, record op { actlen = 0 }, s) =
          unfold write_item in rw (grp, write_item) (rw (e, write_item) refl) in
        rw out (omega arith, refl)
    by_offset (some offset) e = rw (write_item-found run groups depth op s g i offset grp e it) (
        write_found-Refused run (write_item run groups depth) g offset i (record op { actlen = 0 })
          s high low)
