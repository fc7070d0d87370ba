-- ===== src/Common/Address.antt =====
-- cpcluster_common/src/lib.rs: `is_local_ip`. The parser of addresses is the standard library's, and a
-- parameter.
pub mod Blocks
use Prim.Native.Nat.{bit_and}
use cpcluster.Prelude.{
  ℕ, String, Bool, true, false, Option, none, some, ◌&&◌, ◌==◌, leb, if◌then◌else◌,
}

-- `std::net::IpAddr`: four octets, or eight segments of 16 bits.
pub data IpAddr : Type 0 where
  v4 : (a b c d : ℕ) → IpAddr
  v6 : (s0 s1 s2 s3 s4 s5 s6 s7 : ℕ) → IpAddr

-- `Ipv6Addr::is_loopback`: the address ::1.
abbrev pub is_loopback : IpAddr → Bool
is_loopback (v4 a b c d) = a == 127
is_loopback (v6 s0 s1 s2 s3 s4 s5 s6 s7) =
    s0 == 0 && s1 == 0 && s2 == 0 && s3 == 0 && s4 == 0 && s5 == 0 && s6 == 0 && s7 == 1

-- The tests on a parsed address, in the order of the code.
unfoldable pub is_local_addr : IpAddr → Bool
is_local_addr (v4 a b c d) =
    if a == 10
    then true
    else if a == 172 && (leb 16 b && leb b 31)
    then true
    else if a == 192 && b == 168
    then true
    else if a == 127
    then true
    else false
is_local_addr (v6 s0 s1 s2 s3 s4 s5 s6 s7) =
    if is_loopback (v6 s0 s1 s2 s3 s4 s5 s6 s7)
    then true
    else if bit_and s0 0xfe00 == 0xfc00
    then true
    else false

-- A text that is no address is not local.
unfoldable pub is_local_ip : (String → Option IpAddr) → String → Bool
is_local_ip parse ip = elim (parse ip) [ none ↦ false | some addr ↦ is_local_addr addr ]
