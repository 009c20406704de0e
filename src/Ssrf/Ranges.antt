-- ===== src/Ssrf/Ranges.antt =====
-- The special-purpose blocks of IPv4 as networks with a prefix, against the tests on octets of
-- src/backend/lib/ssrf.ts.
use yurucommu_core.Base.{
  ℕ, ◌+◌, ◌*◌, ◌/◌, ◌<◌, ◌≡◌, refl, Bool, true, false, ◌||◌, ◌&&◌, leb, between, List, [], ◌∷◌,
  ◌==◌, any, arith,
}
use yurucommu_core.Ssrf.Ipv4.{Octets, is_private_octets}

-- An address as a 32-bit number.
abbrev pub address : Octets → ℕ
address o = o.a * 16777216 + o.b * 65536 + o.c * 256 + o.d

-- A network, by its first address and the size of its block.
pub record Block : Type 0 where
  pub first : Octets
  pub size : ℕ

abbrev pub in_block : ℕ → Block → Bool
in_block n b = n / b.size == address b.first / b.size

abbrev block : ℕ → ℕ → ℕ → ℕ → Block
block a b c size = record { first = record { a = a; b = b; c = c; d = 0 }; size = size }

-- 0/8, 10/8, 127/8, 169.254/16, 172.16/12, 192.168/16, 100.64/10, 192.0.0/24, 192.0.2/24,
-- 198.18/15, 198.51.100/24, 203.0.113/24, and multicast and the reserved rest, 224/3.
abbrev pub special_blocks : List Block
special_blocks =
    block 0 0 0 16777216
    ∷ block 10 0 0 16777216
    ∷ block 127 0 0 16777216
    ∷ block 169 254 0 65536
    ∷ block 172 16 0 1048576
    ∷ block 192 168 0 65536
    ∷ block 100 64 0 4194304
    ∷ block 192 0 0 256
    ∷ block 192 0 2 256
    ∷ block 198 18 0 131072
    ∷ block 198 51 100 256
    ∷ block 203 0 113 256
    ∷ block 224 0 0 536870912
    ∷ []

module _ (o : Octets) (hb : o.b < 256) (hc : o.c < 256) (hd : o.d < 256) where
  -- One octet is fixed.
  in_block_8 : (x : ℕ) → in_block (address o) (block x 0 0 16777216) ≡ (o.a == x)
  in_block_8 x = ground arith

  in_block_16 :
      (x y : ℕ) → y < 256 → in_block (address o) (block x y 0 65536) ≡ (o.a == x && o.b == y)
  in_block_16 x y h = ground arith

  in_block_24 :
      (x y z : ℕ)
      → y < 256
      → z < 256
      → in_block (address o) (block x y z 256) ≡ (o.a == x && (o.b == y && o.c == z))
  in_block_24 x y z h k = ground arith

  in_172_16 : in_block (address o) (block 172 16 0 1048576) ≡ (o.a == 172 && between 16 31 o.b)
  in_172_16 = ground arith

  in_100_64 : in_block (address o) (block 100 64 0 4194304) ≡ (o.a == 100 && between 64 127 o.b)
  in_100_64 = ground arith

  in_198_18 :
      in_block (address o) (block 198 18 0 131072) ≡ (o.a == 198 && (o.b == 18 || o.b == 19))
  in_198_18 = ground arith

  in_224 : o.a < 256 → in_block (address o) (block 224 0 0 536870912) ≡ leb 224 o.a
  in_224 h = ground arith

or_false : (b : Bool) → (b || false) ≡ b
or_false true = refl
or_false false = refl

-- For four octets below 256, the tests on the octets are those of the thirteen special-purpose
-- blocks: an address is taken as private exactly if one of them contains it.
pub is_private_octets-blocks :
    (o : Octets)
    → o.a < 256
    → o.b < 256
    → o.c < 256
    → o.d < 256
    → is_private_octets o ≡ any (in_block (address o)) special_blocks
unfolding is_private_octets
is_private_octets-blocks o ha hb hc hd =
    rw
      (
        in_block_8 o hb hc hd 0,
        in_block_8 o hb hc hd 10,
        in_block_8 o hb hc hd 127,
        in_block_16 o hb hc hd 169 254 (omega arith),
        in_172_16 o hb hc hd,
        in_block_16 o hb hc hd 192 168 (omega arith),
        in_100_64 o hb hc hd,
        in_block_24 o hb hc hd 192 0 0 (omega arith) (omega arith),
        in_block_24 o hb hc hd 192 0 2 (omega arith) (omega arith),
        in_198_18 o hb hc hd,
        in_block_24 o hb hc hd 198 51 100 (omega arith) (omega arith),
        in_block_24 o hb hc hd 203 0 113 (omega arith) (omega arith),
        in_224 o hb hc hd ha,
        or_false,
      )
      refl
