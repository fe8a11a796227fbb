-- ===== src/Net/Addr.antt =====
-- netip.Addr without zones: the zero value, IPv4 and IPv6, each with its number.
use yaghan.Base.{
  ℕ, ◌+◌, ◌*◌, ◌/◌, ◌%◌, ◌^◌, ◌≡◌, ◌↔◌, refl, Bool, true, false, ◌&&◌, List, [], ◌∷◌, length, drop,
  replicate, ◌++◌, if◌then◌else◌, Option, none, some, Comparable, nat_eq, nat_beq, arith,
}

pub data Addr : Type 0 where
  invalid : Addr
  v4 : ℕ → Addr
  v6 : ℕ → Addr

abbrev pub addr_beq : Addr → Addr → Bool
addr_beq invalid invalid = true
addr_beq (v4 a) (v4 b) = nat_beq a b
addr_beq (v6 a) (v6 b) = nat_beq a b
addr_beq _ _ = false

pub addr_beq_iff : (a b : Addr) → (addr_beq a b ≡ true) ↔ (a ≡ b)
addr_beq_iff invalid invalid = (λ _. refl, λ _. refl)
addr_beq_iff (v4 a) (v4 b) = (λ h. ground arith, λ h. ground arith)
addr_beq_iff (v6 a) (v6 b) = (λ h. ground arith, λ h. ground arith)
addr_beq_iff invalid (v4 b) = (λ h. cc, λ h. cc)
addr_beq_iff invalid (v6 b) = (λ h. cc, λ h. cc)
addr_beq_iff (v4 a) invalid = (λ h. cc, λ h. cc)
addr_beq_iff (v4 a) (v6 b) = (λ h. cc, λ h. cc)
addr_beq_iff (v6 a) invalid = (λ h. cc, λ h. cc)
addr_beq_iff (v6 a) (v4 b) = (λ h. cc, λ h. cc)

instance abbrev pub addr_eq : Comparable Addr
addr_eq = record { equal = addr_beq; equal_iff = addr_beq_iff }

-- addr.IsValid()
abbrev pub is_valid : Addr → Bool
is_valid invalid = false
is_valid _ = true

-- The number that bytes stand for, the most significant byte first.
unfoldable pub big_endian : ℕ → List ℕ → ℕ
big_endian acc [] = acc
big_endian acc (b ∷ bs) = big_endian (acc * 256 + b) bs

-- netip.AddrFromSlice: an address of 4 or 16 bytes; any other length is refused.
unfoldable pub addr_from_slice : List ℕ → Option Addr
unfolding big_endian
addr_from_slice bs =
    if nat_beq (length bs) 4
    then some (v4 (big_endian 0 bs))
    else if nat_beq (length bs) 16
    then some (v6 (big_endian 0 bs))
    else none

-- addr.Unmap(): an IPv4 address that is mapped into IPv6 (::ffff:a.b.c.d) becomes IPv4 again.
unfoldable pub unmap : Addr → Addr
unmap (v6 n) = if nat_beq (n / 2 ^ 32) 0xffff then v4 (n % 2 ^ 32) else v6 n
unmap a = a

-- ip.To4() of package net: 4 bytes stay, 16 bytes of a mapped address lose the prefix, and any
-- other value is the nil slice.
unfoldable pub to4 : List ℕ → List ℕ
to4 ip =
    if nat_beq (length ip) 4
    then ip
    else if nat_beq (length ip) 16 && nat_beq (big_endian 0 ip / 2 ^ 32) 0xffff
    then drop 12 ip
    else []

-- ip.To16(): 16 bytes stay, 4 bytes are mapped, and any other value is the nil slice.
unfoldable pub to16 : List ℕ → List ℕ
to16 ip =
    if nat_beq (length ip) 4
    then replicate 10 0 ++ 255 ∷ 255 ∷ ip
    else if nat_beq (length ip) 16
    then ip
    else []
