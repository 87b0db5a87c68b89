-- ===== src/Items/Table.antt =====
-- The tables of save/itemop.c: every item with its flags, the parameters that it belongs to, its length
-- and what it stands for.
use smart_home_xiugai.Prelude.{ℕ, ◌+◌, List, [], ◌∷◌}
use smart_home_xiugai.Items.{
  parauni_termip, parauni_termmac, parauni_userinfo, paraterm_reset, paraterm_sampling,
  paraterm_svraddr, paraterm_gateaddr, paraterm_apn, paraterm_usrname, paraterm_time,
  paraterm_realtime, paraterm_port_stopbit, paraterm_upreaddev, paraterm_updaydata,
  paraterm_scenelist, paraterm_monlastread, paraterm_monlastup, paraterm_peibian_addr,
  paraterm_scene, paraterm_timertasklist, paraterm_timertask, null, handler, place, sms_addr,
  com_pwd, adm_pwd, search_device, plc_route_type, alarm_flag, ct, port_baud, port_parity,
  port_databits, port_func, hard_info, Target, Item, Group,
}

abbrev pub itoflag_func : ℕ
itoflag_func = 0

abbrev pub itoflag_set00 : ℕ
itoflag_set00 = 1

abbrev pub itoflag_copy : ℕ
itoflag_copy = 5

abbrev pub itoflag_ro : ℕ
itoflag_ro = 0x10

abbrev pub itoflag_wo : ℕ
itoflag_wo = 0x20

abbrev pub itoflag_wr : ℕ
itoflag_wr = 0x30

abbrev pub itoflag_highlevel : ℕ
itoflag_highlevel = 0x40

abbrev pub itoflag_group : ℕ
itoflag_group = 0x80

abbrev pub savflag_paraterm : ℕ
savflag_paraterm = 1

abbrev pub savflag_parauni : ℕ
savflag_parauni = 2

abbrev pub savflag_scene : ℕ
savflag_scene = 8

abbrev pub savflag_timertask : ℕ
savflag_timertask = 16

abbrev item : ℕ → ℕ → ℕ → ℕ → Target → Item
item id flag savflag datalen target = record {
  id = id;
  flag = flag;
  savflag = savflag;
  datalen = datalen;
  target = target;
}

abbrev group : ℕ → ℕ → List Item → Group
group id flag items = record { id = id; flag = flag; items = items }

abbrev pub item_uni1 : List Item
item_uni1 =
    item 0x7500 (itoflag_wr + itoflag_highlevel + itoflag_func) savflag_parauni 93
      (handler parauni_termip)
    ∷ item 0x7501 (itoflag_wr + itoflag_highlevel + itoflag_func) savflag_parauni 6
        (handler parauni_termmac)
    ∷ item 0x7502 (itoflag_wr + itoflag_highlevel + itoflag_func) savflag_parauni 1
        (handler paraterm_reset)
    ∷ item 0x7503 (itoflag_wr + itoflag_highlevel + itoflag_func) savflag_parauni 3
        (handler paraterm_sampling)
    ∷ item 0x7504 (itoflag_wr + itoflag_highlevel + itoflag_func) savflag_parauni 198
        (handler parauni_userinfo)
    ∷ []

abbrev pub item_addr : List Item
item_addr =
    item 0x8010 (itoflag_wr + itoflag_highlevel + itoflag_func) savflag_paraterm 9
      (handler paraterm_svraddr)
    ∷ item 0x8011 (itoflag_wr + itoflag_highlevel + itoflag_func) savflag_paraterm 9
        (handler paraterm_svraddr)
    ∷ item 0x8012 (itoflag_wr + itoflag_highlevel + itoflag_func) savflag_paraterm 9
        (handler paraterm_svraddr)
    ∷ item 0x8013 (itoflag_wr + itoflag_highlevel + itoflag_copy) savflag_paraterm 8
        (place sms_addr)
    ∷ item 0x8014 (itoflag_wr + itoflag_highlevel + itoflag_func) savflag_paraterm 8
        (handler paraterm_gateaddr)
    ∷ item 0x8015 (itoflag_wr + itoflag_highlevel + itoflag_func) savflag_paraterm 16
        (handler paraterm_apn)
    ∷ item 0x8019 (itoflag_wr + itoflag_highlevel + itoflag_func) savflag_paraterm 32
        (handler paraterm_usrname)
    ∷ item 0x801a (itoflag_wr + itoflag_highlevel + itoflag_func) savflag_paraterm 32
        (handler paraterm_usrname)
    ∷ item 0x801f (itoflag_wr + itoflag_highlevel + itoflag_group) 0 0 (null)
    ∷ []

abbrev pub item_pwd : List Item
item_pwd =
    item 0x8020 (itoflag_wo + itoflag_set00) 0 3 (place com_pwd)
    ∷ item 0x8021 (itoflag_wo + itoflag_copy) savflag_paraterm 3 (place com_pwd)
    ∷ item 0x8022 (itoflag_wo + itoflag_highlevel + itoflag_copy) savflag_paraterm 3 (place adm_pwd)
    ∷ item 0x802f (itoflag_wo + itoflag_highlevel + itoflag_group) 0 0 (null)
    ∷ []

abbrev pub item_time : List Item
item_time =
    item 0x8030 (itoflag_wr + itoflag_func) 0 6 (handler paraterm_time)
    ∷ item 0x803e (itoflag_wr + itoflag_func) 0 2 (handler paraterm_realtime)
    ∷ []

abbrev pub item_port0 : List Item
item_port0 =
    item 0x8700 (itoflag_wr + itoflag_copy) savflag_paraterm 1 (place (port_baud 0))
    ∷ item 0x8701 (itoflag_wr + itoflag_copy) savflag_paraterm 1 (place (port_parity 0))
    ∷ item 0x8702 (itoflag_wr + itoflag_copy) savflag_paraterm 1 (place (port_databits 0))
    ∷ item 0x8703 (itoflag_wr + itoflag_func) savflag_paraterm 1 (handler paraterm_port_stopbit)
    ∷ item 0x8704 (itoflag_wr + itoflag_copy) savflag_paraterm 1 (place (port_func 0))
    ∷ item 0x870f (itoflag_wr + itoflag_group) 0 0 (null)
    ∷ []

abbrev pub item_port1 : List Item
item_port1 =
    item 0x8710 (itoflag_wr + itoflag_copy) savflag_paraterm 1 (place (port_baud 1))
    ∷ item 0x8711 (itoflag_wr + itoflag_copy) savflag_paraterm 1 (place (port_parity 1))
    ∷ item 0x8712 (itoflag_wr + itoflag_copy) savflag_paraterm 1 (place (port_databits 1))
    ∷ item 0x8713 (itoflag_wr + itoflag_func) savflag_paraterm 1 (handler paraterm_port_stopbit)
    ∷ item 0x8714 (itoflag_wr + itoflag_copy) savflag_paraterm 1 (place (port_func 1))
    ∷ item 0x871f (itoflag_wr + itoflag_group) 0 0 (null)
    ∷ []

abbrev pub item_port2 : List Item
item_port2 =
    item 0x8720 (itoflag_wr + itoflag_copy) savflag_paraterm 1 (place (port_baud 2))
    ∷ item 0x8721 (itoflag_wr + itoflag_copy) savflag_paraterm 1 (place (port_parity 2))
    ∷ item 0x8722 (itoflag_wr + itoflag_copy) savflag_paraterm 1 (place (port_databits 2))
    ∷ item 0x8723 (itoflag_wr + itoflag_func) savflag_paraterm 1 (handler paraterm_port_stopbit)
    ∷ item 0x8724 (itoflag_wr + itoflag_copy) savflag_paraterm 1 (place (port_func 2))
    ∷ item 0x872f (itoflag_wr + itoflag_group) 0 0 (null)
    ∷ []

abbrev pub item_port3 : List Item
item_port3 =
    item 0x8730 (itoflag_wr + itoflag_copy) savflag_paraterm 1 (place (port_baud 3))
    ∷ item 0x8731 (itoflag_wr + itoflag_copy) savflag_paraterm 1 (place (port_parity 3))
    ∷ item 0x8732 (itoflag_wr + itoflag_copy) savflag_paraterm 1 (place (port_databits 3))
    ∷ item 0x8733 (itoflag_wr + itoflag_func) savflag_paraterm 1 (handler paraterm_port_stopbit)
    ∷ item 0x8734 (itoflag_wr + itoflag_copy) savflag_paraterm 1 (place (port_func 3))
    ∷ item 0x873f (itoflag_wr + itoflag_group) 0 0 (null)
    ∷ []

abbrev pub item_port8 : List Item
item_port8 =
    item 0x8780 (itoflag_wr + itoflag_copy) savflag_paraterm 1 (place (port_baud 7))
    ∷ item 0x8781 (itoflag_wr + itoflag_copy) savflag_paraterm 1 (place (port_parity 7))
    ∷ item 0x8782 (itoflag_wr + itoflag_copy) savflag_paraterm 1 (place (port_databits 7))
    ∷ item 0x8783 (itoflag_wr + itoflag_func) savflag_paraterm 1 (handler paraterm_port_stopbit)
    ∷ item 0x8784 (itoflag_wr + itoflag_copy) savflag_paraterm 1 (place (port_func 7))
    ∷ item 0x878f (itoflag_wr + itoflag_group) 0 0 (null)
    ∷ []

abbrev pub item_ver : List Item
item_ver =
    item 0x8809 (itoflag_ro + itoflag_copy) 0 8 (place (hard_info 8))
    ∷ item 0x880a (itoflag_ro + itoflag_copy) 0 2 (place (hard_info 16))
    ∷ []

abbrev pub item_cfg : List Item
item_cfg =
    item 0x8810 (itoflag_wr + itoflag_copy) savflag_paraterm 1 (place search_device)
    ∷ item 0x8815 (itoflag_wr + itoflag_func) savflag_paraterm 1 (handler paraterm_upreaddev)
    ∷ item 0x8816 (itoflag_wr + itoflag_func) savflag_paraterm 1 (handler paraterm_upreaddev)
    ∷ item 0x8817 (itoflag_wr + itoflag_copy) savflag_paraterm 1 (place plc_route_type)
    ∷ item 0x881a (itoflag_wr + itoflag_func) savflag_paraterm 1 (handler paraterm_updaydata)
    ∷ item 0x881b (itoflag_wr + itoflag_copy) savflag_paraterm 4 (place alarm_flag)
    ∷ item 0x881c (itoflag_ro + itoflag_func) 0 272 (handler paraterm_scenelist)
    ∷ []

abbrev pub item_caspara : List Item
item_caspara =
    item 0x8820 (itoflag_wr + itoflag_func) savflag_paraterm 2 (handler paraterm_monlastread)
    ∷ item 0x8821 (itoflag_wr + itoflag_func) savflag_paraterm 2 (handler paraterm_monlastup)
    ∷ item 0x8822 (itoflag_wr + itoflag_func) savflag_paraterm 4 (handler paraterm_peibian_addr)
    ∷ item 0x8823 (itoflag_wr + itoflag_copy) savflag_paraterm 2 (place ct)
    ∷ []

abbrev pub item_sceneinfo : List Item
item_sceneinfo =
    item 0x8830 (itoflag_wr + itoflag_func) savflag_scene 370 (handler paraterm_scene)
    ∷ item 0x8831 (itoflag_wr + itoflag_func) savflag_scene 370 (handler paraterm_scene)
    ∷ item 0x8832 (itoflag_wr + itoflag_func) savflag_scene 370 (handler paraterm_scene)
    ∷ item 0x8833 (itoflag_wr + itoflag_func) savflag_scene 370 (handler paraterm_scene)
    ∷ item 0x8834 (itoflag_wr + itoflag_func) savflag_scene 370 (handler paraterm_scene)
    ∷ item 0x8835 (itoflag_wr + itoflag_func) savflag_scene 370 (handler paraterm_scene)
    ∷ item 0x8836 (itoflag_wr + itoflag_func) savflag_scene 370 (handler paraterm_scene)
    ∷ item 0x8837 (itoflag_wr + itoflag_func) savflag_scene 370 (handler paraterm_scene)
    ∷ item 0x8838 (itoflag_wr + itoflag_func) savflag_scene 370 (handler paraterm_scene)
    ∷ item 0x8839 (itoflag_wr + itoflag_func) savflag_scene 370 (handler paraterm_scene)
    ∷ item 0x883a (itoflag_wr + itoflag_func) savflag_scene 370 (handler paraterm_scene)
    ∷ item 0x883b (itoflag_wr + itoflag_func) savflag_scene 370 (handler paraterm_scene)
    ∷ item 0x883c (itoflag_wr + itoflag_func) savflag_scene 370 (handler paraterm_scene)
    ∷ item 0x883c (itoflag_wr + itoflag_func) savflag_scene 370 (handler paraterm_scene)
    ∷ item 0x883d (itoflag_wr + itoflag_func) savflag_scene 370 (handler paraterm_scene)
    ∷ item 0x883e (itoflag_wr + itoflag_func) savflag_scene 370 (handler paraterm_scene)
    ∷ []

abbrev pub item_timertaskinfo : List Item
item_timertaskinfo =
    item 0x8840 (itoflag_wr + itoflag_func) savflag_timertask 220 (handler paraterm_timertasklist)
    ∷ item 0x8841 (itoflag_wr + itoflag_func) savflag_timertask 374 (handler paraterm_timertask)
    ∷ item 0x8842 (itoflag_wr + itoflag_func) savflag_timertask 374 (handler paraterm_timertask)
    ∷ item 0x8843 (itoflag_wr + itoflag_func) savflag_timertask 374 (handler paraterm_timertask)
    ∷ item 0x8844 (itoflag_wr + itoflag_func) savflag_timertask 374 (handler paraterm_timertask)
    ∷ item 0x8845 (itoflag_wr + itoflag_func) savflag_timertask 374 (handler paraterm_timertask)
    ∷ item 0x8846 (itoflag_wr + itoflag_func) savflag_timertask 374 (handler paraterm_timertask)
    ∷ item 0x8847 (itoflag_wr + itoflag_func) savflag_timertask 374 (handler paraterm_timertask)
    ∷ item 0x8848 (itoflag_wr + itoflag_func) savflag_timertask 374 (handler paraterm_timertask)
    ∷ item 0x8849 (itoflag_wr + itoflag_func) savflag_timertask 374 (handler paraterm_timertask)
    ∷ item 0x884a (itoflag_wr + itoflag_func) savflag_timertask 374 (handler paraterm_timertask)
    ∷ []

-- `g_item_grp`
abbrev pub item_grp : List Group
item_grp =
    group 0x7500 0 item_uni1
    ∷ group 0x8010 0 item_addr
    ∷ group 0x8020 0 item_pwd
    ∷ group 0x8030 0x2000 item_time
    ∷ group 0x8700 0 item_port0
    ∷ group 0x8710 0 item_port1
    ∷ group 0x8720 0 item_port2
    ∷ group 0x8730 0 item_port3
    ∷ group 0x8780 0 item_port8
    ∷ group 0x8800 0 item_ver
    ∷ group 0x8810 0 item_cfg
    ∷ group 0x8820 0 item_caspara
    ∷ group 0x8830 0 item_sceneinfo
    ∷ group 0x8840 0 item_timertaskinfo
    ∷ []
