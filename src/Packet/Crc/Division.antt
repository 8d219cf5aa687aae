-- ===== src/Packet/Crc/Division.antt =====
-- `enet_crc32` of original/packet.c is the division by the polynomial 0xEDB88320, bit by bit, which
-- its table does for a byte at once.
use Prim.Native.Nat.{bit_xor}
use enet_rs.Prelude.{
  ℕ, zero, suc, ◌+◌, ◌*◌, ◌/◌, ◌%◌, ◌-◌, ◌<◌, ◌≡◌, refl, sym, ap, ◌∙◌, List, [], ◌∷◌, get_or, ◌==◌,
  if◌then◌else◌, Bool, true, false, arith, map,
}
use enet_rs.Prelude.Xor.{xor_half, xor_low, xor_assoc, shifted, xor_shifted, xor_below}
use enet_rs.Packet.Crc.{crc_table, crc_bytes, crc32, swap_bytes}

-- A step of the division: a bit leaves at the low end.
abbrev pub divide_bit : ℕ → ℕ
divide_bit c = if c % 2 == 1 then bit_xor (c / 2) 0xedb88320 else c / 2

abbrev pub divide_bits : ℕ → ℕ → ℕ
divide_bits zero c = c
divide_bits (suc k) c = divide_bits k (divide_bit c)

-- The checksum without a table: each byte is put in at the low end and divided away.
abbrev pub divide_bytes : List ℕ → ℕ → ℕ
divide_bytes [] c = c
divide_bytes (b ∷ bs) c = divide_bytes bs (divide_bits 8 (bit_xor c b))

abbrev numbers : ℕ → ℕ → List ℕ
numbers zero i = []
numbers (suc k) i = i ∷ numbers k (i + 1)

table_divides : crc_table ≡ map (divide_bits 8) (numbers 256 0)
unfolding crc_table
table_divides = refl

get_or-numbers : (f : ℕ → ℕ) (n i j : ℕ) → j < n → get_or (map f (numbers n i)) j 0 ≡ f (i + j)
get_or-numbers f zero i j h = absurd (omega (arith, h))
get_or-numbers f (suc n) i zero h = ap f (omega arith)
get_or-numbers f (suc n) i (suc j) h =
    get_or-numbers f n (i + 1) j (omega (arith, h)) ∙ ap f (omega arith)

table_entry : (j : ℕ) → j < 256 → get_or crc_table j 0 ≡ divide_bits 8 j
table_entry j h =
    ap (λ t. get_or t j 0) table_divides
    ∙ get_or-numbers (divide_bits 8) 256 0 j h
    ∙ ap (divide_bits 8) (omega arith)

bit_if :
    (t u : Bool) (x y z : ℕ)
    → t ≡ u
    → bit_xor x y ≡ z
    → (if t then bit_xor (bit_xor x y) 0xedb88320 else bit_xor x y)
      ≡ bit_xor x (if u then bit_xor y 0xedb88320 else y)
bit_if true true x y z e f = xor_assoc x y 0xedb88320
bit_if true false x y z e f = absurd (cc e)
bit_if false true x y z e f = absurd (cc e)
bit_if false false x y z e f = refl

-- Digits above do not take part in a step.
divide_bit-xor :
    (k h l : ℕ) → divide_bit (bit_xor (shifted (suc k) h) l) ≡ bit_xor (shifted k h) (divide_bit l)
divide_bit-xor k h l =
    let half : bit_xor (shifted (suc k) h) l / 2 ≡ bit_xor (shifted k h) (l / 2) =
      xor_half (shifted (suc k) h) l
      ∙ ap (λ z. bit_xor z (l / 2))
          (let e : shifted k h * 2 / 2 ≡ shifted k h = omega arith in e) in
    let low : bit_xor (shifted (suc k) h) l % 2 ≡ l % 2 =
      omega (arith, xor_low (shifted (suc k) h) l) in
    ap
      (λ z.
        if z == 1
        then bit_xor (bit_xor (shifted (suc k) h) l / 2) 0xedb88320
        else bit_xor (shifted (suc k) h) l / 2)
      low
    ∙ ap (λ z. if l % 2 == 1 then bit_xor z 0xedb88320 else z) half
    ∙ bit_if (l % 2 == 1) (l % 2 == 1) (shifted k h) (l / 2) (bit_xor (shifted k h) (l / 2)) refl
        refl

divide_bits-xor :
    (k h l : ℕ) → divide_bits k (bit_xor (shifted k h) l) ≡ bit_xor h (divide_bits k l)
divide_bits-xor zero h l = refl
divide_bits-xor (suc k) h l =
    ap (divide_bits k) (divide_bit-xor k h l) ∙ divide_bits-xor k h (divide_bit l)

-- A byte, by the table and by the division.
byte_step :
    (c b : ℕ)
    → b < 256
    → bit_xor (c / 256) (get_or crc_table (bit_xor (c % 256) b) 0) ≡ divide_bits 8 (bit_xor c b)
byte_step c b h =
    let split : bit_xor (shifted 8 (c / 256)) (c % 256) ≡ c =
      omega (arith, xor_shifted 8 (c / 256) (c % 256) (omega arith)) in
    ap (bit_xor (c / 256))
      (table_entry (bit_xor (c % 256) b) (xor_below 8 (c % 256) b (omega arith) (omega (arith, h))))
    ∙ sym (divide_bits-xor 8 (c / 256) (bit_xor (c % 256) b))
    ∙ ap (divide_bits 8)
        (sym (xor_assoc (shifted 8 (c / 256)) (c % 256) b) ∙ ap (λ z. bit_xor z b) split)

-- All members of a list are bytes.
pub data AreBytes : List ℕ → Type 0 where
  no_bytes : AreBytes []
  a_byte : (b : ℕ) (bs : List ℕ) → b < 256 → AreBytes bs → AreBytes (b ∷ bs)

crc_bytes-divide : (bs : List ℕ) (c : ℕ) → AreBytes bs → crc_bytes bs c ≡ divide_bytes bs c
unfolding crc_bytes
crc_bytes-divide [] c no_bytes = refl
crc_bytes-divide (b ∷ bs) c (a_byte _ _ h hs) =
    crc_bytes-divide bs (bit_xor (c / 256) (get_or crc_table (bit_xor (c % 256) b) 0)) hs
    ∙ ap (divide_bytes bs) (byte_step c b h)

-- For every list of bytes the checksum that `enet_crc32` computes by its table of 256 entries is the
-- remainder of the division by the reversed polynomial 0xEDB88320 one bit at a time, started at and
-- complemented to 2 ^ 32 - 1, with its bytes in network order.
pub crc32-division :
    (bs : List ℕ) → AreBytes bs → crc32 bs ≡ swap_bytes (4294967295 - divide_bytes bs 4294967295)
unfolding crc32
crc32-division bs h = ap (λ c. swap_bytes (4294967295 - c)) (crc_bytes-divide bs 4294967295 h)
