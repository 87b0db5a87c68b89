-- ===== src/Tests/Stored.antt =====
-- Items written and read: a password, a protected address, a scene.
use smart_home_xiugai.Prelude.{
  ℕ, ◌≤◌, none, false, ◌≡◌, refl, List, [], ◌∷◌, some, arith, inl, bit_and, replicate,
}
use smart_home_xiugai.Items.{place_size, port_baud, port_func, sms_addr, place, Item, Group, ItemOp}
use smart_home_xiugai.Items.Table.{item_grp, item_port0, item_addr}
use smart_home_xiugai.Items.Access.{
  Store, Run, itortn_ok, find_group, find_item, write_item, write_offset, write_found, write_target,
  write_place, within,
}
use smart_home_xiugai.Items.Reading.{read_item, read_found, read_target, read_place}
use smart_home_xiugai.Items.Written.{Refused, read_item-write_item, write_item-Refused}
use smart_home_xiugai.Items.Served.{Given, behind_ports}
use smart_home_xiugai.Items.Depth.{item_grp-Given}
use smart_home_xiugai.Items.Saving.{
  save_para_scene_use, save_para_timer_task, save_param, write_items, Without,
  save_param-write_items,
}

-- Functions that do nothing.
abbrev idle : Run ℕ
idle h flag op s = (itortn_ok, op, s)

abbrev blank : Store ℕ
blank = record { memory = λ p. 0 ∷ []; save_flag = 0; rest = 0 }

abbrev op_of : ℕ → List ℕ → ItemOp
op_of id buf = record { id = id; maxlen = 8; buf = buf; actlen = 0; mid = 0; level = 0; itf = 0 }

abbrev eight : List ℕ
eight = 6 ∷ 0 ∷ 0 ∷ 0 ∷ 0 ∷ 0 ∷ 0 ∷ 0 ∷ []

abbrev port0 : Group
port0 = record { id = 0x8700; flag = 0; items = item_port0 }

abbrev baud0 : Item
baud0 = record { id = 0x8700; flag = 0x35; savflag = 1; datalen = 1; target = place (port_baud 0) }

find_port0 : find_group (bit_and 0x8700 0xfff0) item_grp ≡ some port0
unfolding find_group
find_port0 = refl

find_baud0 : find_item 0x8700 item_port0 ≡ some baud0
unfolding find_item
find_baud0 = refl

baud0_stored : 1 ≤ place_size (port_baud 0)
unfolding place_size
baud0_stored = omega arith

read_item-write_item_example :
    (s' : Store ℕ) × (write_item idle item_grp 2 (op_of 0x8700 eight) blank
      ≡ some (itortn_ok, record (op_of 0x8700 eight) { actlen = 1 }, s'))
    × (read_item idle item_grp 2 (op_of 0x8700 (9 ∷ [])) s'
        ≡ some (itortn_ok, record (op_of 0x8700 (6 ∷ [])) { actlen = 1 }, s'))
    × (s'.memory (port_func 0) ≡ 0 ∷ [])
read_item-write_item_example =
    read_item-write_item idle item_grp 1 (op_of 0x8700 eight) (op_of 0x8700 (9 ∷ [])) blank port0
      baud0 (port_baud 0) (port_func 0) find_port0 find_baud0 refl (inl refl) refl baud0_stored refl
      (omega arith) (omega arith) refl refl (omega arith) (λ e. cc)

abbrev addr : Group
addr = record { id = 0x8010; flag = 0; items = item_addr }

abbrev sms : Item
sms = record { id = 0x8013; flag = 0x75; savflag = 1; datalen = 8; target = place sms_addr }

find_addr : find_group (bit_and 0x8013 0xfff0) item_grp ≡ some addr
unfolding find_group
find_addr = refl

find_sms : find_item 0x8013 item_addr ≡ some sms
unfolding find_item
find_sms = refl

write_item-Refused_example : Refused blank (write_item idle item_grp 2 (op_of 0x8013 eight) blank)
write_item-Refused_example =
    write_item-Refused idle item_grp 1 (op_of 0x8013 eight) blank addr sms find_addr find_sms refl
      (omega arith)

abbrev scene : ItemOp
scene = record {
  id = 0x8830;
  maxlen = 400;
  buf = replicate 400 1;
  actlen = 0;
  mid = 0;
  level = 0;
  itf = 0;
}

scene_clear : behind_ports 0x8830 ≡ false
unfolding behind_ports
scene_clear = refl

save_param-write_items_example :
    (s' : Store ℕ) × (write_items idle (scene ∷ []) blank ≡ some s')
    × Without save_para_scene_use (save_param s'.save_flag).0
save_param-write_items_example =
    save_param-write_items idle (scene ∷ []) blank (λ h flag op s. refl) (scene_clear, tt) refl

-- A scene is written, and the timer tasks are saved.
scene_saved : (save_param 8).0 ≡ save_para_timer_task ∷ []
unfolding save_param
scene_saved = refl

-- Timer tasks are written, and nothing is saved.
timer_task_saved : (save_param 16).0 ≡ []
unfolding save_param
timer_task_saved = refl

item_grp-Given_example :
    Given (write_item idle item_grp 2 scene blank) × Given (read_item idle item_grp 2 scene blank)
item_grp-Given_example = item_grp-Given idle scene blank scene_clear

-- The storage of 0x8780 and its kin is behind the last port.
behind_written : write_item idle item_grp 2 (op_of 0x8780 eight) blank ≡ none
unfolding write_item find_group find_item write_offset write_found write_target write_place within
    place_size
behind_written = refl

behind_read : read_item idle item_grp 2 (op_of 0x8784 eight) blank ≡ none
unfolding read_item find_group find_item read_found read_target read_place within place_size
behind_read = refl
