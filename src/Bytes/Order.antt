-- ===== src/Bytes/Order.antt =====
-- Conversions between words and bytes undo one another.
use smart_home_xiugai.Prelude.{ℕ, ◌+◌, ◌*◌, ◌/◌, ◌%◌, ◌^◌, ◌<◌, ◌≡◌, List, ◌∷◌, arith}
use smart_home_xiugai.Bytes.{
  htons, htonl, make_short, depart_short, makepkt_short, departpkt_short, make_long, depart_long,
  make_shortlong, depart_shortlong,
}

-- Swapping the bytes of a 16-bit word or a 32-bit word twice gives the word back, and a swapped word
-- is again a word of that width.
pub hton_involutive :
    (us ul : ℕ)
    → us < 2 ^ 16
    → ul < 2 ^ 32
    → (htons (htons us) ≡ us) × (htons us < 2 ^ 16) × (htonl (htonl ul) ≡ ul) × (htonl ul < 2 ^ 32)
unfolding htons htonl
hton_involutive us ul p q = (omega arith, omega arith, omega arith, omega arith)

-- In a buffer with room, a 16-bit word written in either byte order is read back by the reader of
-- that order, and as the swapped word by the reader of the other; a 32-bit word is read back too, and
-- its low three bytes where only those are written and read.
pub make-depart :
    (us ul b0 b1 b2 b3 : ℕ) (rest : List ℕ)
    → us < 2 ^ 16
    → ul < 2 ^ 32
    → let str = b0 ∷ b1 ∷ b2 ∷ b3 ∷ rest in
      (make_short (depart_short us str) ≡ us)
      × (makepkt_short (departpkt_short us str) ≡ us)
      × (make_short (departpkt_short us str) ≡ us % 256 * 256 + us / 256)
      × (make_long (depart_long ul str) ≡ ul)
      × (make_shortlong (depart_shortlong ul str) ≡ ul % 2 ^ 24)
unfolding make_short depart_short makepkt_short departpkt_short make_long depart_long make_shortlong
    depart_shortlong
make-depart us ul b0 b1 b2 b3 rest p q =
    (omega arith, omega arith, omega arith, omega arith, omega arith)
