-- ===== src/Unfurl/Address.antt =====
-- `isDisallowedIP` and the dialer of server/unfurl.go, with the tests of `net.IP` that they use.
use hexeris_beta.Base.{
  ℕ, ◌/◌, Option, none, some, Bool, true, false, List, [], ◌∷◌, leb, ◌==◌, ◌&&◌, ◌||◌,
  if◌then◌else◌,
}

-- The bytes of a `net.IP`: none of them, four or sixteen.
abbrev pub Ip : Type 0
Ip = List ℕ

-- What `To4` tells apart.
pub data Address : Type 0 where
  nil : Address
  v4 : ℕ → ℕ → ℕ → ℕ → Address
  v6 : Ip → Address

unfoldable pub zeros : Ip → Bool
zeros [] = true
zeros (b ∷ bs) = b == 0 && zeros bs

-- Ten zeros and two bytes 255 stand before an IPv4 address.
unfoldable pub address_of : Ip → Address
unfolding zeros
address_of [] = nil
address_of (a ∷ b ∷ c ∷ d ∷ []) = v4 a b c d
address_of (b0 ∷ b1 ∷ b2 ∷ b3 ∷ b4 ∷ b5 ∷ b6 ∷ b7 ∷ b8 ∷ b9 ∷ m ∷ n ∷ a ∷ b ∷ c ∷ d ∷ []) =
    if zeros (b0 ∷ b1 ∷ b2 ∷ b3 ∷ b4 ∷ b5 ∷ b6 ∷ b7 ∷ b8 ∷ b9 ∷ []) && m == 255 && n == 255
    then v4 a b c d
    else v6 (b0 ∷ b1 ∷ b2 ∷ b3 ∷ b4 ∷ b5 ∷ b6 ∷ b7 ∷ b8 ∷ b9 ∷ m ∷ n ∷ a ∷ b ∷ c ∷ d ∷ [])
address_of other = v6 other

-- Fifteen zeros and a one.
unfoldable pub is_one : Ip → Bool
is_one [] = false
is_one (b ∷ []) = b == 1
is_one (b ∷ c ∷ cs) = b == 0 && is_one (c ∷ cs)

unfoldable pub is_loopback : Address → Bool
unfolding is_one
is_loopback nil = false
is_loopback (v4 a b c d) = a == 127
is_loopback (v6 bs) = is_one bs

abbrev leading : (ℕ → ℕ → Bool) → Ip → Bool
leading p [] = false
leading p (a ∷ []) = false
leading p (a ∷ b ∷ bs) = p a b

unfoldable pub is_private : Address → Bool
is_private nil = false
is_private (v4 a b c d) = a == 10 || (a == 172 && b / 16 == 1) || (a == 192 && b == 168)
is_private (v6 bs) = leading (λ a b. a / 2 == 126) bs

unfoldable pub is_unspecified : Address → Bool
unfolding zeros
is_unspecified nil = false
is_unspecified (v4 a b c d) = zeros (a ∷ b ∷ c ∷ d ∷ [])
is_unspecified (v6 bs) = zeros bs

unfoldable pub is_link_local_unicast : Address → Bool
is_link_local_unicast nil = false
is_link_local_unicast (v4 a b c d) = a == 169 && b == 254
is_link_local_unicast (v6 bs) = leading (λ a b. a == 254 && b / 64 == 2) bs

unfoldable pub is_multicast : Address → Bool
is_multicast nil = false
is_multicast (v4 a b c d) = a / 16 == 14
is_multicast (v6 bs) = leading (λ a b. a == 255) bs

-- 100.64.0.0/10
unfoldable pub is_shared : Address → Bool
is_shared nil = false
is_shared (v4 a b c d) = a == 100 && leb 64 b && leb b 127
is_shared (v6 bs) = false

abbrev is_nil : Address → Bool
is_nil nil = true
is_nil (v4 a b c d) = false
is_nil (v6 bs) = false

-- `IsLinkLocalMulticast` is a part of `IsMulticast`.
unfoldable pub is_disallowed : Address → Bool
unfolding is_loopback is_private is_unspecified is_link_local_unicast is_multicast is_shared
is_disallowed ip =
    is_nil ip
    || is_loopback ip
    || is_private ip
    || is_unspecified ip
    || is_link_local_unicast ip
    || is_multicast ip
    || is_shared ip

unfoldable pub one_disallowed : List Ip → Bool
unfolding is_disallowed address_of
one_disallowed [] = false
one_disallowed (ip ∷ ips) = is_disallowed (address_of ip) || one_disallowed ips

pub data Dial : Type 0 where
  bad_address unresolved blocked : Dial
  connects : Ip → Dial

abbrev first_of : List Ip → Dial
first_of [] = unresolved
first_of (ip ∷ ips) = if one_disallowed (ip ∷ ips) then blocked else connects ip

-- What `SplitHostPort` and the resolver say of the address of a hop.
unfoldable pub dial : Bool → Option (List Ip) → Dial
unfolding one_disallowed
dial false resolved = bad_address
dial true none = unresolved
dial true (some ips) = first_of ips
