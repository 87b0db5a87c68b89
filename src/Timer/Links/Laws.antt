-- ===== src/Timer/Links/Laws.antt =====
-- Linking and unlinking keep a list well linked in both directions.
use smart_home_xiugai.Prelude.{
  ℕ, ◌≡◌, ◌≢◌, refl, List, [], ◌∷◌, ◌++◌, ◌==◌, if◌then◌else◌, arith, Bool, true, false, ◌∙◌, sym,
}
use smart_home_xiugai.Timer.Links.Fresh.{
  Fresh, Distinct, append-Fresh, Distinct-remove, Distinct-concat,
}
use smart_home_xiugai.Timer.Links.{upd, Links, link_tail, unlink}

-- The path from `a` over `l` to `b`: each `next` and each `prev` on it is right.
abbrev pub Seg : (ℕ → ℕ) → (ℕ → ℕ) → ℕ → List ℕ → ℕ → Type 0
Seg next prev a [] b = (next a ≡ b) × (prev b ≡ a)
Seg next prev a (x ∷ l) b = (next a ≡ x) × (prev x ≡ a) × Seg next prev x l b

abbrev last_of : ℕ → List ℕ → ℕ
last_of a [] = a
last_of a (x ∷ l) = last_of x l

abbrev pub first_of : List ℕ → ℕ → ℕ
first_of [] b = b
first_of (x ∷ l) b = x

pub upd_self : (f : ℕ → ℕ) (i v : ℕ) → upd f i v i ≡ v
upd_self f i v = ground arith

pub upd_other : (f : ℕ → ℕ) (i v j : ℕ) → j ≢ i → upd f i v j ≡ f j
upd_other f i v j h = ground arith

module _ (f g : ℕ → ℕ) where
  frame_next :
      (p v a : ℕ) (l : List ℕ) (b : ℕ) → p ≢ a → Fresh p l → Seg f g a l b → Seg (upd f p v) g a l b
  frame_next p v a [] b h fresh s = (upd_other f p v a (λ e. h (sym e)) ∙ s.0, s.1)
  frame_next p v a (x ∷ l) b h fresh s =
      (upd_other f p v a (λ e. h (sym e)) ∙ s.0, s.1, frame_next p v x l b fresh.0 fresh.1 s.2)

  frame_prev :
      (q v a : ℕ) (l : List ℕ) (b : ℕ) → q ≢ b → Fresh q l → Seg f g a l b → Seg f (upd g q v) a l b
  frame_prev q v a [] b h fresh s = (s.0, upd_other g q v b (λ e. h (sym e)) ∙ s.1)
  frame_prev q v a (x ∷ l) b h fresh s =
      (s.0, upd_other g q v x (λ e. fresh.0 (sym e)) ∙ s.1, frame_prev q v x l b h fresh.1 s.2)

  prev_in :
      (a : ℕ) (l : List ℕ) (x : ℕ) (r : List ℕ) (b : ℕ)
      → Seg f g a (l ++ x ∷ r) b
      → g x ≡ last_of a l
  prev_in a [] x r b s = s.1
  prev_in a (c ∷ l) x r b s = prev_in c l x r b s.2

  prev_end : (a : ℕ) (l : List ℕ) (b : ℕ) → Seg f g a l b → g b ≡ last_of a l
  prev_end a [] b s = s.1
  prev_end a (c ∷ l) b s = prev_end c l b s.2

  pub next_in :
      (a : ℕ) (l : List ℕ) (x : ℕ) (r : List ℕ) (b : ℕ)
      → Seg f g a (l ++ x ∷ r) b
      → f x ≡ first_of r b
  next_in a [] x [] b s = s.2.0
  next_in a [] x (y ∷ r) b s = s.2.0
  next_in a (c ∷ l) x r b s = next_in c l x r b s.2

pub first_in : (f g : ℕ → ℕ) (a : ℕ) (l : List ℕ) (b : ℕ) → Seg f g a l b → f a ≡ first_of l b
first_in f g a [] b s = s.0
first_in f g a (x ∷ l) b s = s.0

not_last_of : (a c : ℕ) (l tail : List ℕ) → Fresh a (c ∷ l ++ tail) → a ≢ last_of c l
not_last_of a c [] tail h = h.0
not_last_of a c (x ∷ l) tail h = not_last_of a x l tail h.1

not_first_of :
    (c : ℕ) (l : List ℕ) (x : ℕ) (r : List ℕ) (b : ℕ)
    → c ≢ b
    → Fresh c (l ++ x ∷ r)
    → c ≢ first_of r b
not_first_of c [] x [] b h fresh = h
not_first_of c [] x (y ∷ r) b h fresh = fresh.1.0
not_first_of c (z ∷ l) x r b h fresh = not_first_of c l x r b h fresh.1

module _ (f g : ℕ → ℕ) (b : ℕ) where
  Seg-unlink :
      (a : ℕ) (l : List ℕ) (x : ℕ) (r : List ℕ)
      → Distinct (a ∷ l ++ x ∷ r)
      → Fresh b (l ++ x ∷ r)
      → Seg f g a (l ++ x ∷ r) b
      → Seg (upd f (last_of a l) (first_of r b)) (upd g (first_of r b) (last_of a l)) a (l ++ r) b
  Seg-unlink a [] x [] d h s = (upd_self f a b, upd_self g b a)
  Seg-unlink a [] x (y ∷ r) d h s = (
    upd_self f a y,
    upd_self g y a,
    frame_prev (upd f a y) g y a y r b (λ e. h.1.0 (sym e)) d.1.1.0
        (frame_next f g a y y r b d.0.1.0 d.0.1.1 s.2.2),
  )
  Seg-unlink a (c ∷ l) x r d h s = (
    upd_other f (last_of c l) (first_of r b) a (not_last_of a c l (x ∷ r) d.0) ∙ s.0,
    upd_other g (first_of r b) (last_of c l) c (not_first_of c l x r b (λ e. h.0 (sym e)) d.1.0)
        ∙ s.1,
    Seg-unlink c l x r d.1 h.1 s.2,
  )

  Seg-link :
      (i a : ℕ) (l : List ℕ)
      → i ≢ b
      → i ≢ a
      → Fresh i l
      → Fresh b l
      → Distinct (a ∷ l)
      → Seg f g a l b
      → Seg (upd (upd f i b) (last_of a l) i) (upd (upd g i (last_of a l)) b i) a (l ++ i ∷ []) b
  Seg-link i a [] ib ia fresh h d s = (
    upd_self (upd f i b) a i,
    upd_other (upd g i a) b i i ib ∙ upd_self g i a,
    (upd_other (upd f i b) a i i ia ∙ upd_self f i b, upd_self (upd g i a) b i),
  )
  Seg-link i a (c ∷ l) ib ia fresh h d s = (
    upd_other (upd f i b) (last_of c l) i a
          (not_last_of a c l [] (append-Fresh a (c ∷ l) [] d.0 tt))
        ∙ upd_other f i b a (λ e. ia (sym e))
        ∙ s.0,
    upd_other (upd g i (last_of c l)) b i c (λ e. h.0 (sym e))
        ∙ upd_other g i (last_of c l) c (λ e. fresh.0 (sym e))
        ∙ s.1,
    Seg-link i c l ib fresh.0 fresh.1 h.1 d.1 s.2,
  )

if_same : (t : Bool) (v : ℕ) → (if t then v else v) ≡ v
if_same true v = refl
if_same false v = refl

-- The nodes of `order` and no others are linked in, in that order, behind the head `list`.
pub record IsList (list : ℕ) (k : Links) (order : List ℕ) : Type 0 where
  pub linked : Seg k.next k.prev list order list
  pub distinct : Distinct (list ∷ order)

pub unlink-IsList :
    (list : ℕ) (k : Links) (l : List ℕ) (x : ℕ) (r : List ℕ)
    → IsList list k (l ++ x ∷ r)
    → IsList list (unlink x k) (l ++ r)
unfolding unlink
unlink-IsList list k l x r v =
    let before : k.prev x ≡ last_of list l = prev_in k.next k.prev list l x r list v.linked in
    let after : k.next x ≡ first_of r list = next_in k.next k.prev list l x r list v.linked in
    record {
      linked =
          rw (before, after, if_same (x == last_of list l) (first_of r list))
            (Seg-unlink k.next k.prev list list l x r v.distinct v.distinct.0 v.linked);
      distinct = Distinct-remove (list ∷ l) x r v.distinct;
    }

pub link_tail-IsList :
    (list : ℕ) (k : Links) (order : List ℕ) (i : ℕ)
    → i ≢ list
    → Fresh i order
    → IsList list k order
    → IsList list (link_tail list i k) (order ++ i ∷ [])
unfolding link_tail
link_tail-IsList list k order i h fresh v =
    let last : k.prev list ≡ last_of list order = prev_end k.next k.prev list order list v.linked in
    record {
      linked =
          rw (last, if_same (list == i) (last_of list order))
            (Seg-link k.next k.prev list i list order h h fresh v.distinct.0 v.distinct v.linked);
      distinct = Distinct-concat (list ∷ order) i (h, fresh) v.distinct;
    }
