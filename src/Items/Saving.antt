-- ===== src/Items/Saving.antt =====
-- Which parameters are saved after items were written: `SaveParam` of param/operation.c.
use smart_home_xiugai.Prelude.{
  ℕ, zero, suc, ◌+◌, ◌*◌, ◌<◌, List, Option, none, some, [], ◌∷◌, ◌==◌, ltb, if◌then◌else◌, Bool,
  true, false, not, ◌&&◌, ◌||◌, bit_and, bit_or, ◌≡◌, ◌≢◌, refl, inl, inr, arith, Bool-cases,
  all_below, all_below_sound, u16,
}
use smart_home_xiugai.Items.{Handler, Place, Target, null, handler, place, Item, Group, ItemOp}
use smart_home_xiugai.Items.Table.{item_grp}
use smart_home_xiugai.Items.Served.{behind_ports, Given-some}
use smart_home_xiugai.Items.Depth.{item_grp-Given}
use smart_home_xiugai.Items.Access.{
  Store, Outcome, Run, find_group, find_item, set_save_param_flag, poke_place, write_place,
  write_target, write_group, write_found, write_offset, write_item,
}

pub data SaveFunc : Type 0 where
  save_para_term save_para_uni save_para_scene_use save_para_timer_task : SaveFunc

-- `FunctionSave`
abbrev pub function_save : List SaveFunc
function_save = save_para_term ∷ save_para_uni ∷ save_para_scene_use ∷ save_para_timer_task ∷ []

-- The loop of `SaveParam`: the functions that it calls, in order.
unfoldable pub save_loop : ℕ → List SaveFunc → ℕ → List SaveFunc
save_loop mask [] flag = []
save_loop mask (f ∷ fs) flag =
    let rest = save_loop (mask * 2) fs flag in if bit_and mask flag == 0 then rest else f ∷ rest

-- `SaveParam`: the functions called, and `SaveFlag` afterwards.
unfoldable pub save_param : ℕ → List SaveFunc × ℕ
unfolding save_loop
save_param flag = (save_loop 1 function_save flag, 0)

-- The bit of scenes' saving function is not set.
no_scene : ℕ → Bool
no_scene flag = ltb flag 32 && bit_and 4 flag == 0

all_pairs :
    all_below 32 (λ f. all_below 32 (λ g. not (no_scene f && no_scene g) || no_scene (bit_or f g)))
    ≡ true
unfolding all_below no_scene
all_pairs = refl

no_scene_below : (f : ℕ) → no_scene f ≡ true → f < 32
unfolding no_scene
no_scene_below f h = ground arith

no_scene-bit_or : (f g : ℕ) → no_scene f ≡ true → no_scene g ≡ true → no_scene (bit_or f g) ≡ true
no_scene-bit_or f g p q =
    let outer = all_below_sound 32 _ f all_pairs (no_scene_below f p) in
    let inner = all_below_sound 32 _ g outer (no_scene_below g q) in rw (p, q) at inner

-- No item of the tables sets that bit.
items_test : List Item → Bool
items_test [] = true
items_test (i ∷ is) = no_scene i.savflag && items_test is

groups_test : List Group → Bool
groups_test [] = true
groups_test (g ∷ gs) = items_test g.items && groups_test gs

item_grp_test : groups_test item_grp ≡ true
unfolding groups_test items_test no_scene
item_grp_test = refl

find_item-test :
    (id : ℕ) (is : List Item) (i : Item)
    → items_test is ≡ true
    → find_item id is ≡ some i
    → no_scene i.savflag ≡ true
unfolding items_test find_item
find_item-test id [] i h e = absurd (none_some e)
  where
    none_some : none ≡ some i → ⊥
    none_some p = cc
find_item-test id (j ∷ is) i h e = ground (arith, find_item-test id is i)

find_group-test :
    (id : ℕ) (gs : List Group) (g : Group)
    → groups_test gs ≡ true
    → find_group id gs ≡ some g
    → items_test g.items ≡ true
unfolding groups_test find_group
find_group-test id [] g h e = absurd (none_some e)
  where
    none_some : none ≡ some g → ⊥
    none_some p = cc
find_group-test id (j ∷ gs) g h e = ground (arith, find_group-test id gs g)

module _ {S : Type 0} where
  -- After the operation the bit is not set.
  abbrev Kept : Outcome S → Type 0
  Kept none = Unit {0}
  Kept (some (rtn, op, s)) = no_scene s.save_flag ≡ true

  abbrev pub KeepsFlag : Run S → Type 0
  KeepsFlag run =
      (h : Handler) (flag : ℕ) (op : ItemOp) (s : Store S)
      → (run h flag op s).2.save_flag ≡ s.save_flag

  write_place-Kept :
      (i : Item) (p : Place) (offset : ℕ) (op : ItemOp) (s : Store S)
      → no_scene i.savflag ≡ true
      → no_scene s.save_flag ≡ true
      → Kept (write_place i p offset op s)
  unfolding write_place set_save_param_flag poke_place
  write_place-Kept i p offset op s h k =
      let joined = no_scene-bit_or s.save_flag i.savflag k h in ground arith

  write_target-Kept :
      (run : Run S) (i : Item) (t : Target) (offset : ℕ) (op : ItemOp) (s : Store S)
      → KeepsFlag run
      → no_scene i.savflag ≡ true
      → no_scene s.save_flag ≡ true
      → Kept (write_target run i t offset op s)
  unfolding write_target set_save_param_flag
  write_target-Kept run i (place p) offset op s keeps h k = write_place-Kept i p offset op s h k
  write_target-Kept run i null offset op s keeps h k = ground arith
  write_target-Kept run i (handler f) offset op s keeps h k =
      let same : (run f 1 op s).2.save_flag ≡ s.save_flag = keeps f 1 op s in
      let kept : no_scene (run f 1 op s).2.save_flag ≡ true = rw same k in
      let joined = no_scene-bit_or (run f 1 op s).2.save_flag i.savflag kept h in ground arith

  write_group-Kept :
      (write : ItemOp → Store S → Outcome S)
      → ((op : ItemOp) (s : Store S) → no_scene s.save_flag ≡ true → Kept (write op s))
      → (is : List Item) (op bak : ItemOp) (fail : ℕ) (s : Store S) → no_scene s.save_flag ≡ true
      → Kept (write_group write is op bak fail s)
  unfolding write_group
  write_group-Kept write keeps [] op bak fail s k = k
  write_group-Kept write keeps (i ∷ is) op bak fail s k =
      after (write (record bak { id = i.id }) s) refl (keeps (record bak { id = i.id }) s k)
        (write_group-Kept write keeps is)
    where
      after :
          (o : Outcome S)
          → write (record bak { id = i.id }) s ≡ o
          → Kept o
          → ((op bak : ItemOp) (fail : ℕ) (s : Store S)
              → no_scene s.save_flag ≡ true
              → Kept (write_group write is op bak fail s))
          → Kept (write_group write (i ∷ is) op bak fail s)
      after none e kept later = elim (Bool-cases (i.id == op.id)) [
        | inl own ↦ rw own k
        | inr item ↦ rw (item, e, write_group) tt
      ]
      after (some (rtn, bak', s')) e kept later = elim (Bool-cases (i.id == op.id)) [
        | inl own ↦ rw own k
        | inr item ↦
            rw (item, e, write_group)
              (elim (Bool-cases (rtn == 1)) [
                | inl invalid ↦ rw invalid kept
                | inr valid ↦
                    rw valid (elim (Bool-cases (ltb op.maxlen (u16 (op.actlen + bak'.actlen)))) [
                      | inl full ↦ rw full kept
                      | inr room ↦ rw room (later _ _ _ s' kept)
                    ])
              ])
      ]

  write_found-Kept :
      (run : Run S) (write : ItemOp → Store S → Outcome S) (g : Group) (offset : ℕ) (i : Item)
      (op : ItemOp) (s : Store S)
      → KeepsFlag run
      → ((op : ItemOp) (s : Store S) → no_scene s.save_flag ≡ true → Kept (write op s))
      → no_scene i.savflag ≡ true
      → no_scene s.save_flag ≡ true
      → Kept (write_found run write g offset i op s)
  unfolding write_found
  write_found-Kept run write g offset i op s keeps inner h k = ground (
    arith,
    write_group-Kept write inner g.items (record op { actlen = 0 }) (record op { actlen = 0 }) 0 s
        k,
    write_target-Kept run i i.target offset (record op { actlen = i.datalen }) s keeps h k,
  )

  write_item-Kept :
      (run : Run S) (depth : ℕ) (op : ItemOp) (s : Store S)
      → KeepsFlag run
      → no_scene s.save_flag ≡ true
      → Kept (write_item run item_grp depth op s)
  unfolding write_item
  write_item-Kept run zero op s keeps k = tt
  write_item-Kept run (suc depth) op s keeps k =
      by_group (find_group (bit_and op.id 0xfff0) item_grp) refl
        (λ o t e. write_item-Kept run depth o t keeps e)
    where
      by_group :
          (found : Option Group)
          → find_group (bit_and op.id 0xfff0) item_grp ≡ found
          → ((op : ItemOp) (s : Store S)
              → no_scene s.save_flag ≡ true
              → Kept (write_item run item_grp depth op s))
          → Kept (write_item run item_grp (suc depth) op s)
      by_group none e inner = rw (e, write_item) k
      by_group (some g) e inner = by_item (write_offset g op) (find_item op.id g.items) refl refl
        where
          by_item :
              (o : Option ℕ) (found : Option Item)
              → write_offset g op ≡ o
              → find_item op.id g.items ≡ found
              → Kept (write_item run item_grp (suc depth) op s)
          by_item none found off it = rw (e, write_item) (rw (off, write_item) k)
          by_item (some offset) none off it =
              rw (e, write_item) (rw (off, write_item) (rw (it, write_item) k))
          by_item (some offset) (some i) off it =
              let saved : no_scene i.savflag ≡ true =
                find_item-test op.id g.items i
                  (find_group-test (bit_and op.id 0xfff0) item_grp g item_grp_test e) it in
              rw (e, write_item)
                (rw (off, write_item)
                  (rw (it, write_item)
                    (write_found-Kept run (write_item run item_grp depth) g offset i
                      (record op { actlen = 0 }) s keeps inner saved k)))

-- Writing one item after the other, whatever the results are, as long as each write has an outcome.
pub write_items : {S : Type 0} → Run S → List ItemOp → Store S → Option (Store S)
write_items run [] s = some s
write_items run (op ∷ ops) s = elim (write_item run item_grp 2 op s) [
  | none ↦ none
  | some (rtn, op', s') ↦ write_items run ops s'
]

-- None of the items is one behind the ports.
abbrev pub AllClear : List ItemOp → Type 0
AllClear [] = Unit {0}
AllClear (op ∷ ops) = (behind_ports op.id ≡ false) × AllClear ops

write_items-no_scene :
    {S : Type 0} (run : Run S) (ops : List ItemOp) (s : Store S)
    → KeepsFlag run
    → AllClear ops
    → no_scene s.save_flag ≡ true
    → (s' : Store S) × (write_items run ops s ≡ some s') × (no_scene s'.save_flag ≡ true)
unfolding write_items
write_items-no_scene run [] s keeps clear k = (s, refl, k)
write_items-no_scene {S} run (op ∷ ops) s keeps clear k =
    let ((rtn, op', t), e) = Given-some _ (item_grp-Given run op s clear.0).0 in
    let kept : no_scene t.save_flag ≡ true = rw e at (write_item-Kept run 2 op s keeps k) in
    let (s', ran, last) = write_items-no_scene run ops t keeps clear.1 kept in
    (s', rw (e, write_items) ran, last)

abbrev pub Without : SaveFunc → List SaveFunc → Type 0
Without f [] = Unit {0}
Without f (g ∷ gs) = (g ≢ f) × Without f gs

Without-if :
    (f g : SaveFunc) (skipped : Bool) (gs : List SaveFunc)
    → g ≢ f
    → Without f gs
    → Without f (if skipped then gs else g ∷ gs)
Without-if f g true gs other h = h
Without-if f g false gs other h = (other, h)

save_param-no_scene :
    (flag : ℕ) → no_scene flag ≡ true → Without save_para_scene_use (save_param flag).0
unfolding save_param save_loop no_scene
save_param-no_scene flag h =
    let clear : (bit_and 4 flag == 0) ≡ true = ground (arith, h) in
    let scenes = save_para_scene_use in
    rw clear (
      Without-if scenes save_para_term (bit_and 1 flag == 0) _ (λ e. cc)
        (Without-if scenes save_para_uni (bit_and 2 flag == 0) _ (λ e. cc)
          (Without-if scenes save_para_timer_task (bit_and 8 flag == 0) [] (λ e. cc) tt)))

-- After any writes of items but those behind the ports, which all have an outcome, `SaveParam` does not
-- call `SaveParaSceneUse`, if scenes were written or not: the scenes' flag is the place of another
-- function in `FunctionSave`. It holds from a clear `SaveFlag`, for functions behind the items that
-- leave the flag alone.
pub save_param-write_items :
    {S : Type 0} (run : Run S) (ops : List ItemOp) (s : Store S)
    → KeepsFlag run
    → AllClear ops
    → s.save_flag ≡ 0
    → (s' : Store S) × (write_items run ops s ≡ some s')
      × Without save_para_scene_use (save_param s'.save_flag).0
unfolding no_scene
save_param-write_items run ops s keeps clear start =
    let (s', ran, last) = write_items-no_scene run ops s keeps clear (rw start refl) in
    (s', ran, save_param-no_scene s'.save_flag last)
