-- ===== src/Timer/Links.antt =====
-- The doubly linked lists of sys/syscall/timer.c. A node of `CTimerBuffer` or `RTimerBuffer` is its
-- index, the list's head is the index behind the last; `next` and `prev` are the fields of all nodes.
pub mod Fresh
pub mod Laws
use smart_home_xiugai.Prelude.{ℕ, ◌==◌, if◌then◌else◌}

-- A write of one field of one node.
abbrev pub upd : (ℕ → ℕ) → ℕ → ℕ → ℕ → ℕ
upd f i v j = if j == i then v else f j

pub record Links : Type 0 where
  pub next : ℕ → ℕ
  pub prev : ℕ → ℕ

-- Node `i` linked in before the list head `list`, at the end.
unfoldable pub link_tail : ℕ → ℕ → Links → Links
link_tail list i k =
    let next = upd k.next i list in
    let prev = upd k.prev i (k.prev list) in
    record { next = upd next (prev list) i; prev = upd prev list i }

-- Node `i` taken out.
unfoldable pub unlink : ℕ → Links → Links
unlink i k =
    let next = upd k.next (k.prev i) (k.next i) in
    record { next = next; prev = upd k.prev (next i) (k.prev i) }
