-- ===== src/Items/Given.antt =====
-- The outcomes of the parts of `write_item` and `read_item` of save/itemop.c, for items that are served.
use smart_home_xiugai.Prelude.{
  ℕ, ◌+◌, List, [], ◌∷◌, ◌==◌, if◌then◌else◌, sym, ◌++◌, ◌^◌, ◌-◌, drop, take, u16, true, ◌&&◌,
  bit_and, ◌≡◌, inl, inr, arith, Bool-cases,
}
use smart_home_xiugai.Items.{Place, Target, null, handler, place, Item, Group, ItemOp}
use smart_home_xiugai.Items.Access.{
  Store, Outcome, Run, within, write_place, write_target, write_group, write_found,
}
use smart_home_xiugai.Items.Reading.{read_place, read_target, read_group, read_found}
use smart_home_xiugai.Items.Served.{
  Given, Given-some, is_group, served, target_served, alone, single, singles, item_served, &&-left,
  &&-right, ||-right,
}

-- An access that has an outcome where no group is found.
abbrev pub Serves : {S : Type 0} → List Group → (ItemOp → Store S → Outcome S) → Type 0
Serves {S} groups access =
    (op : ItemOp) (s : Store S) → single groups op.id ≡ true → Given (access op s)

module _ {S : Type 0} (run : Run S) where
  write_place-Given :
      (i : Item) (p : Place) (op : ItemOp) (s : Store S)
      → target_served (bit_and i.flag 0x0f) i.datalen (place p) ≡ true
      → Given (write_place i p 0 op s)
  unfolding write_place target_served within
  write_place-Given i p op s h = ground arith

  write_target-Given :
      (i : Item) (t : Target) (op : ItemOp) (s : Store S)
      → target_served (bit_and i.flag 0x0f) i.datalen t ≡ true
      → Given (write_target run i t 0 op s)
  unfolding write_target target_served within
  write_target-Given i null op s h = ground arith
  write_target-Given i (handler k) op s h = ground arith
  write_target-Given i (place p) op s h = write_place-Given i p op s h

  read_place-Given :
      (i : Item) (p : Place) (op : ItemOp) (s : Store S)
      → target_served (bit_and i.flag 0x0f) i.datalen (place p) ≡ true
      → Given (read_place i p 0 op s)
  unfolding read_place target_served within
  read_place-Given i p op s h = ground arith

  read_target-Given :
      (i : Item) (t : Target) (op : ItemOp) (s : Store S)
      → target_served (bit_and i.flag 0x0f) i.datalen t ≡ true
      → Given (read_target run i t 0 op s)
  unfolding read_target target_served within
  read_target-Given i null op s h = ground arith
  read_target-Given i (handler k) op s h = ground arith
  read_target-Given i (place p) op s h = let there = read_place-Given i p op s h in ground arith

  write_group-Given :
      (groups : List Group) (write : ItemOp → Store S → Outcome S) (is : List Item)
      (op bak : ItemOp) (fail : ℕ) (s : Store S)
      → Serves groups write
      → singles groups op.id is ≡ true
      → Given (write_group write is op bak fail s)
  unfolding write_group singles
  write_group-Given groups write [] op bak fail s serves h = tt
  write_group-Given groups write (i ∷ is) op bak fail s serves h =
      elim (Bool-cases (i.id == op.id)) [
        | inl same ↦ rw same tt
        | inr other ↦
            let h' =
              ||-right (i.id == op.id) (single groups i.id && singles groups op.id is) h other in
            let (out, e) = Given-some _ (
              serves (record bak { id = i.id }) s
                (&&-left (single groups i.id) (singles groups op.id is) h')) in
            let bak' = out.1 in
            let more =
              write_group-Given groups write is
                (record op { actlen = u16 (op.actlen + bak'.actlen) })
                (record bak' {
                  buf = drop bak'.actlen bak'.buf;
                  maxlen = u16 (bak'.maxlen + 2 ^ 16 - bak'.actlen);
                })
                (if out.0 == 0 then fail else out.0) out.2 serves
                (&&-right (single groups i.id) (singles groups op.id is) h') in
            rw (other, e, write_group) (ground arith)
      ]

  read_group-Given :
      (groups : List Group) (read : ItemOp → Store S → Outcome S) (is : List Item) (op bak : ItemOp)
      (front : List ℕ) (s : Store S)
      → Serves groups read
      → singles groups op.id is ≡ true
      → Given (read_group read is op bak front s)
  unfolding read_group singles
  read_group-Given groups read [] op bak front s serves h = tt
  read_group-Given groups read (i ∷ is) op bak front s serves h =
      elim (Bool-cases (i.id == op.id)) [
        | inl same ↦ rw same tt
        | inr other ↦
            let h' =
              ||-right (i.id == op.id) (single groups i.id && singles groups op.id is) h other in
            let at : ItemOp = record bak { id = i.id; actlen = 0 } in
            let (out, e) =
              Given-some _
                (serves at s (&&-left (single groups i.id) (singles groups op.id is) h')) in
            let bak' = out.1 in
            let more =
              read_group-Given groups read is
                (record op { actlen = u16 (op.actlen + bak'.actlen); buf = front ++ bak'.buf })
                (record bak' {
                  buf = drop bak'.actlen bak'.buf;
                  maxlen = u16 (bak'.maxlen + 2 ^ 16 - bak'.actlen);
                })
                (front ++ take bak'.actlen bak'.buf) out.2 serves
                (&&-right (single groups i.id) (singles groups op.id is) h') in
            rw (other, e, read_group) (ground arith)
      ]

  pub write_found-Given :
      (groups : List Group) (write : ItemOp → Store S → Outcome S) (g : Group) (i : Item)
      (op : ItemOp) (s : Store S)
      → Serves groups write
      → i.id ≡ op.id
      → item_served groups g.items i ≡ true
      → Given (write_found run write g 0 i op s)
  unfolding write_found item_served is_group served
  write_found-Given groups write g i op s serves same h = elim (Bool-cases (is_group i)) [
    | inl grp ↦
        let inner : singles groups op.id g.items ≡ true = rw (sym same) (ground (arith, h, grp)) in
        let all =
          write_group-Given groups write g.items (record op { actlen = 0 })
            (record op { actlen = 0 }) 0 s serves inner in
        ground arith
    | inr plain ↦
        let one =
          write_target-Given i i.target (record op { actlen = i.datalen }) s
            (ground (arith, h, plain)) in
        ground arith
  ]

  pub read_found-Given :
      (groups : List Group) (read : ItemOp → Store S → Outcome S) (g : Group) (i : Item)
      (op : ItemOp) (s : Store S)
      → Serves groups read
      → i.id ≡ op.id
      → item_served groups g.items i ≡ true
      → Given (read_found run read g i op s)
  unfolding read_found item_served is_group served
  read_found-Given groups read g i op s serves same h = elim (Bool-cases (is_group i)) [
    | inl grp ↦
        let inner : singles groups op.id g.items ≡ true = rw (sym same) (ground (arith, h, grp)) in
        let all =
          read_group-Given groups read g.items (record op { actlen = 0 }) (record op { actlen = 0 })
            [] s serves inner in
        ground arith
    | inr plain ↦
        let one =
          read_target-Given i i.target (record op { actlen = i.datalen }) s
            (ground (arith, h, plain)) in
        ground arith
  ]

  -- An item that is not a group needs no access behind it.
  pub write_found-alone :
      (write : ItemOp → Store S → Outcome S) (g : Group) (i : Item) (op : ItemOp) (s : Store S)
      → alone i ≡ true
      → Given (write_found run write g 0 i op s)
  unfolding write_found alone is_group served
  write_found-alone write g i op s h =
      let one =
        write_target-Given i i.target (record op { actlen = i.datalen }) s (ground (arith, h)) in
      ground arith

  pub read_found-alone :
      (read : ItemOp → Store S → Outcome S) (g : Group) (i : Item) (op : ItemOp) (s : Store S)
      → alone i ≡ true
      → Given (read_found run read g i op s)
  unfolding read_found alone is_group served
  read_found-alone read g i op s h =
      let one =
        read_target-Given i i.target (record op { actlen = i.datalen }) s (ground (arith, h)) in
      ground arith
