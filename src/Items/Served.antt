-- ===== src/Items/Served.antt =====
-- What the tables of save/itemop.c have to keep so that every access of an item is served: each item
-- with a flag that fits what it stands for, and no group before another group's end.
use smart_home_xiugai.Prelude.{
  ℕ, List, Option, none, some, [], ◌∷◌, ◌==◌, leb, if◌then◌else◌, sym, Bool, true, false, not, ◌&&◌,
  ◌||◌, bit_and, ◌≡◌, refl, ◌∙◌, ap, arith,
}
use smart_home_xiugai.Items.{Target, null, handler, place, place_size, Item, Group, ItemOp}
use smart_home_xiugai.Items.Table.{itoflag_group, item_grp}
use smart_home_xiugai.Items.Access.{within, write_offset, find_group, find_item}

-- There is an outcome.
abbrev pub Given : {A : Type 0} → Option A → Type 0
Given none = ⊥
Given (some x) = Unit

pub Given-some : {A : Type 0} (o : Option A) → Given o → (x : A) × (o ≡ some x)
Given-some none h = elim h [ ]
Given-some (some x) h = (x, refl)

-- The bytes of storage that an access of a kind takes.
abbrev pub access_len : ℕ → ℕ → ℕ
access_len kind datalen = if kind == 6 then 2 else if kind == 7 then 4 else datalen

-- What an item stands for can be accessed in the way that its flag says, and storage is long enough.
unfoldable pub target_served : ℕ → ℕ → Target → Bool
target_served kind datalen null = leb kind 3
target_served kind datalen (handler h) = leb kind 3
target_served kind datalen (place p) = not (kind == 0) && within p 0 (access_len kind datalen)

unfoldable pub served : Item → Bool
served i = target_served (bit_and i.flag 0x0f) i.datalen i.target

unfoldable pub is_group : Item → Bool
is_group i = not (bit_and i.flag itoflag_group == 0)

-- The item of an identifier, if there is one, is served and not a group.
unfoldable pub alone : Item → Bool
alone i = not (is_group i) && served i

found_alone : Option Item → Bool
found_alone none = true
found_alone (some i) = alone i

pub single : List Group → ℕ → Bool
single groups id = elim (find_group (bit_and id 0xfff0) groups) [
  | none ↦ true
  | some g ↦ found_alone (find_item id g.items)
]

-- So are all before an identifier in a list of items.
unfoldable pub singles : List Group → ℕ → List Item → Bool
singles groups id [] = true
singles groups id (i ∷ is) = (i.id == id) || (single groups i.id && singles groups id is)

unfoldable pub item_served : List Group → List Item → Item → Bool
item_served groups all i = if is_group i then singles groups i.id all else served i

-- The items of g_item_port8 with storage behind the last entry of `port`, and the group of them.
unfoldable pub behind_ports : ℕ → Bool
behind_ports id = leb 0x8780 id && leb id 0x8782 || id == 0x8784 || id == 0x878f

all_items : (Item → Bool) → List Item → Bool
all_items p [] = true
all_items p (i ∷ is) = p i && all_items p is

all_groups : List Group → List Group → Bool
all_groups groups [] = true
all_groups groups (g ∷ gs) =
    all_items (λ i. behind_ports i.id || item_served groups g.items i) g.items
    && all_groups groups gs

-- No group's storage depends on the measuring point.
pub all_flat : List Group → Bool
all_flat [] = true
all_flat (g ∷ gs) = not (bit_and g.flag 0xf000 == 0x1000) && all_flat gs

pub item_grp-flat : all_flat item_grp ≡ true
unfolding all_flat
item_grp-flat = refl

pub find_group-flat :
    (id : ℕ) (gs : List Group) (g : Group)
    → all_flat gs ≡ true
    → find_group id gs ≡ some g
    → (bit_and g.flag 0xf000 == 0x1000) ≡ false
unfolding all_flat find_group
find_group-flat id [] g h e = ground arith
find_group-flat id (k ∷ gs) g h e = let rest = find_group-flat id gs g in ground arith

pub write_offset-zero :
    (g : Group) (op : ItemOp) (offset : ℕ)
    → (bit_and g.flag 0xf000 == 0x1000) ≡ false
    → write_offset g op ≡ some offset
    → 0 ≡ offset
unfolding write_offset
write_offset-zero g op offset flat e = ground (arith, flat, e)

-- Every item of the terminal's tables is served but for the ones behind the ports, and no group lies
-- within a group.
item_grp-served : all_groups item_grp item_grp ≡ true
unfolding all_groups all_items item_served singles single alone found_alone is_group served
    target_served within place_size behind_ports find_group find_item
item_grp-served = refl

pub &&-left : (a b : Bool) → (a && b) ≡ true → a ≡ true
&&-left true b h = refl
&&-left false b h = h

pub &&-right : (a b : Bool) → (a && b) ≡ true → b ≡ true
&&-right true b h = h
&&-right false b h = ground arith

pub ||-right : (a b : Bool) → (a || b) ≡ true → a ≡ false → b ≡ true
||-right a b h off = ground arith

pub find_item-id : (id : ℕ) (is : List Item) (i : Item) → find_item id is ≡ some i → i.id ≡ id
unfolding find_item
find_item-id id [] i e = ground arith
find_item-id id (j ∷ is) i e =
    let later : find_item id is ≡ some i → i.id ≡ id = find_item-id id is i in ground arith

find_item-all :
    (p : Item → Bool) (id : ℕ) (is : List Item) (i : Item)
    → find_item id is ≡ some i
    → all_items p is ≡ true
    → p i ≡ true
unfolding find_item all_items
find_item-all p id [] i e h = ground arith
find_item-all p id (j ∷ is) i e h = let rest = find_item-all p id is i in ground arith

find_group-all :
    (groups : List Group) (id : ℕ) (gs : List Group) (g : Group)
    → find_group id gs ≡ some g
    → all_groups groups gs ≡ true
    → all_items (λ i. behind_ports i.id || item_served groups g.items i) g.items ≡ true
unfolding find_group all_groups
find_group-all groups id [] g e h = ground arith
find_group-all groups id (k ∷ gs) g e h = let rest = find_group-all groups id gs g in ground arith

pub item_grp-item :
    (g : Group) (i : Item) (id : ℕ)
    → find_group (bit_and id 0xfff0) item_grp ≡ some g
    → find_item id g.items ≡ some i
    → behind_ports id ≡ false
    → item_served item_grp g.items i ≡ true
item_grp-item g i id grp it clear =
    let either =
      find_item-all (λ i. behind_ports i.id || item_served item_grp g.items i) id g.items i it
        (find_group-all item_grp (bit_and id 0xfff0) item_grp g grp item_grp-served) in
    ||-right (behind_ports i.id) (item_served item_grp g.items i) either
      (ap behind_ports (find_item-id id g.items i it) ∙ clear)

pub single-alone :
    (groups : List Group) (id : ℕ) (g : Group) (i : Item)
    → find_group (bit_and id 0xfff0) groups ≡ some g
    → find_item id g.items ≡ some i
    → single groups id ≡ true
    → alone i ≡ true
unfolding single found_alone
single-alone groups id g i grp it h =
    let same : single groups id ≡ alone i = rw (grp, single) (rw (it, single) refl) in sym same ∙ h
