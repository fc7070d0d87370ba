-- ===== src/Common/Address/Blocks.antt =====
-- `is_local_ip` against the address blocks (CIDR) that its comments name.
use Prim.Native.Nat.{bit_and}
use cpcluster.Prelude.{
  ℕ, zero, suc, ◌+◌, ◌-◌, ◌*◌, ◌/◌, ◌^◌, ◌<◌, ◌≡◌, refl, ◌↔◌, ◌⊎◌, Bool, true, ◌&&◌, not, arith,
  ◌==◌, if◌then◌else◌,
}
use cpcluster.Common.Address.{IpAddr, v4, v6, is_local_addr}

-- An address as one number.
abbrev pub to_number : IpAddr → ℕ
to_number (v4 a b c d) = a * 2 ^ 24 + b * 2 ^ 16 + c * 2 ^ 8 + d
to_number (v6 s0 s1 s2 s3 s4 s5 s6 s7) =
    s0 * 2 ^ 112
    + s1 * 2 ^ 96
    + s2 * 2 ^ 80
    + s3 * 2 ^ 64
    + s4 * 2 ^ 48
    + s5 * 2 ^ 32
    + s6 * 2 ^ 16
    + s7

abbrev pub InRange : IpAddr → Type 0
InRange (v4 a b c d) = (a < 256) × (b < 256) × (c < 256) × (d < 256)
InRange (v6 s0 s1 s2 s3 s4 s5 s6 s7) =
    (s0 < 2 ^ 16)
    × (s1 < 2 ^ 16)
    × (s2 < 2 ^ 16)
    × (s3 < 2 ^ 16)
    × (s4 < 2 ^ 16)
    × (s5 < 2 ^ 16)
    × (s6 < 2 ^ 16)
    × (s7 < 2 ^ 16)

-- `net/prefix` in an address space of `width` bits.
abbrev pub InBlock : ℕ → IpAddr → ℕ → IpAddr → Type 0
InBlock width net prefix addr =
    to_number addr / 2 ^ (width - prefix) ≡ to_number net / 2 ^ (width - prefix)

-- 10.0.0.0/8, 172.16.0.0/12, 192.168.0.0/16, 127.0.0.0/8; ::1/128, fc00::/7
abbrev pub InPrivateBlock : IpAddr → Type 0
InPrivateBlock (v4 a b c d) =
    InBlock 32 (v4 10 0 0 0) 8 (v4 a b c d)
    ⊎ InBlock 32 (v4 172 16 0 0) 12 (v4 a b c d)
    ⊎ InBlock 32 (v4 192 168 0 0) 16 (v4 a b c d)
    ⊎ InBlock 32 (v4 127 0 0 0) 8 (v4 a b c d)
InPrivateBlock (v6 s0 s1 s2 s3 s4 s5 s6 s7) =
    InBlock 128 (v6 0 0 0 0 0 0 0 1) 128 (v6 s0 s1 s2 s3 s4 s5 s6 s7)
    ⊎ InBlock 128 (v6 0xfc00 0 0 0 0 0 0 0) 7 (v6 s0 s1 s2 s3 s4 s5 s6 s7)

-- A test that passes at 0, 1, … below the bound.
passes_below : (ℕ → Bool) → ℕ → Bool
passes_below test zero = true
passes_below test (suc k) = passes_below test k && test k

passes_below-lt :
    (test : ℕ → Bool) (bound : ℕ) {k : ℕ}
    → k < bound
    → passes_below test bound ≡ true
    → test k ≡ true
unfolding passes_below
passes_below-lt test zero lt all = elim lt [ ]
passes_below-lt test (suc n) {k} lt all = ground (arith, passes_below-lt test n {k = k})

-- Under the mask a segment is 0xfc00 exactly if its upper seven bits are those of fc00::/7.
abbrev mask_agrees : ℕ → Bool
mask_agrees x =
    if x / 512 == 126 then bit_and x 0xfe00 == 0xfc00 else not (bit_and x 0xfe00 == 0xfc00)

-- Checked at each of the 2 ^ 16 segments.
mask_agrees_everywhere : passes_below mask_agrees 65536 ≡ true
unfolding passes_below
mask_agrees_everywhere = refl

mask_iff : (x : ℕ) → x < 65536 → ((bit_and x 0xfe00 == 0xfc00) ≡ true) ↔ (x / 512 ≡ 126)
mask_iff x h = ground (arith, passes_below-lt mask_agrees 65536 h mask_agrees_everywhere)

-- An address is local exactly if it lies in one of the private blocks.
pub is_local_addr_iff :
    (addr : IpAddr) → InRange addr → (is_local_addr addr ≡ true) ↔ InPrivateBlock addr
unfolding is_local_addr
is_local_addr_iff (v4 a b c d) h = ground arith
is_local_addr_iff (v6 s0 s1 s2 s3 s4 s5 s6 s7) h = ground (arith, mask_iff s0)
