-- ===== src/Unfurl/Ranges.antt =====
-- The addresses that the dialer of server/unfurl.go connects to, against ranges of numbers.
use hexeris_beta.Base.{
  ℕ, ◌+◌, ◌*◌, ◌/◌, ◌<◌, ◌≡◌, refl, sym, ap, ◌∙◌, Option, none, some, Bool, true, false, List, [],
  ◌∷◌, leb, ◌==◌, ◌&&◌, ◌||◌, if◌then◌else◌, arith,
}
use hexeris_beta.Unfurl.Address.{
  Ip, v4, address_of, zeros, is_disallowed, one_disallowed, Dial, connects, blocked, dial,
  is_loopback, is_private, is_unspecified, is_link_local_unicast, is_multicast, is_shared,
}

-- The number of an IPv4 address.
abbrev pub number : ℕ → ℕ → ℕ → ℕ → ℕ
number a b c d = 16_777_216 * a + 65_536 * b + 256 * c + d

abbrev pub Ranges : Type 0
Ranges = List (ℕ × ℕ)

unfoldable pub in_ranges : Ranges → ℕ → Bool
in_ranges [] n = false
in_ranges (r ∷ rs) n = (leb r.0 n && leb n r.1) || in_ranges rs n

-- 127/8, 10/8, 172.16/12, 192.168/16, 0.0.0.0, 169.254/16, 224/4, 100.64/10
abbrev pub inner_ranges : Ranges
inner_ranges =
    (2_130_706_432, 2_147_483_647)
    ∷ (167_772_160, 184_549_375)
    ∷ (2_886_729_728, 2_887_778_303)
    ∷ (3_232_235_520, 3_232_301_055)
    ∷ (0, 0)
    ∷ (2_851_995_648, 2_852_061_183)
    ∷ (3_758_096_384, 4_026_531_839)
    ∷ (1_681_915_904, 1_686_110_207)
    ∷ []

abbrev pub Bytes : ℕ → ℕ → ℕ → ℕ → Type 0
Bytes a b c d = (a < 256) × (b < 256) × (c < 256) × (d < 256)

abbrev within : ℕ → ℕ → ℕ → Bool
within lo hi n = leb lo n && leb n hi

loopback_range :
    (a b c d : ℕ) → Bytes a b c d → (a == 127) ≡ within 2_130_706_432 2_147_483_647 (number a b c d)
loopback_range a b c d h = ground (arith, h.0, h.1, h.2, h.3)

ten_range :
    (a b c d : ℕ) → Bytes a b c d → (a == 10) ≡ within 167_772_160 184_549_375 (number a b c d)
ten_range a b c d h = ground (arith, h.0, h.1, h.2, h.3)

private_range :
    (a b c d : ℕ)
    → Bytes a b c d
    → (a == 172 && b / 16 == 1) ≡ within 2_886_729_728 2_887_778_303 (number a b c d)
private_range a b c d h = ground (arith, h.0, h.1, h.2, h.3)

site_range :
    (a b c d : ℕ)
    → Bytes a b c d
    → (a == 192 && b == 168) ≡ within 3_232_235_520 3_232_301_055 (number a b c d)
site_range a b c d h = ground (arith, h.0, h.1, h.2, h.3)

zero_range :
    (a b c d : ℕ) → Bytes a b c d → zeros (a ∷ b ∷ c ∷ d ∷ []) ≡ within 0 0 (number a b c d)
unfolding zeros
zero_range a b c d h = ground (arith, h.0, h.1, h.2, h.3)

link_range :
    (a b c d : ℕ)
    → Bytes a b c d
    → (a == 169 && b == 254) ≡ within 2_851_995_648 2_852_061_183 (number a b c d)
link_range a b c d h = ground (arith, h.0, h.1, h.2, h.3)

multicast_range :
    (a b c d : ℕ)
    → Bytes a b c d
    → (a / 16 == 14) ≡ within 3_758_096_384 4_026_531_839 (number a b c d)
multicast_range a b c d h = ground (arith, h.0, h.1, h.2, h.3)

shared_range :
    (a b c d : ℕ)
    → Bytes a b c d
    → (a == 100 && leb 64 b && leb b 127) ≡ within 1_681_915_904 1_686_110_207 (number a b c d)
shared_range a b c d h = ground (arith, h.0, h.1, h.2, h.3)

is_disallowed-in_ranges :
    (a b c d : ℕ)
    → Bytes a b c d
    → is_disallowed (v4 a b c d) ≡ in_ranges inner_ranges (number a b c d)
unfolding is_disallowed is_loopback is_private is_unspecified is_link_local_unicast is_multicast
    is_shared in_ranges
is_disallowed-in_ranges a b c d h =
    regroup (loopback_range a b c d h) (ten_range a b c d h) (private_range a b c d h)
      (site_range a b c d h) (zero_range a b c d h) (link_range a b c d h)
      (multicast_range a b c d h) (shared_range a b c d h)
  where
    regroup :
        {p q r s t u v w p' q' r' s' t' u' v' w' : Bool}
        → p ≡ p'
        → q ≡ q'
        → r ≡ r'
        → s ≡ s'
        → t ≡ t'
        → u ≡ u'
        → v ≡ v'
        → w ≡ w'
        → (p || (q || r || s) || t || u || v || w)
          ≡ (p' || (q' || (r' || (s' || (t' || (u' || (v' || (w' || false))))))))
    regroup e1 e2 e3 e4 e5 e6 e7 e8 = rw (e1, e2, e3, e4, e5, e6, e7, e8) (ground arith)

reached : Dial → Ip
reached (connects ip) = ip
reached _ = []

dial_allowed :
    (ok : Bool) (resolved : Option (List Ip)) (ip : Ip)
    → dial ok resolved ≡ connects ip
    → is_disallowed (address_of ip) ≡ false
unfolding dial one_disallowed reached
dial_allowed false resolved ip e = absurd (cc e)
dial_allowed true none ip e = absurd (cc e)
dial_allowed true (some []) ip e = absurd (cc e)
dial_allowed true (some (x ∷ xs)) ip e =
    by_test (is_disallowed (address_of x)) (one_disallowed xs) refl e
  where
    by_test :
        (b c : Bool)
        → is_disallowed (address_of x) ≡ b
        → (if b || c then blocked else connects x) ≡ connects ip
        → is_disallowed (address_of ip) ≡ false
    by_test true c f h = absurd (cc h)
    by_test false true f h = absurd (cc h)
    by_test false false f h = ap (λ (y : Ip). is_disallowed (address_of y)) (sym (ap reached h)) ∙ f

-- An IPv4 address that the dialer connects to, written in four bytes or mapped into sixteen, lies in
-- none of the ranges 0.0.0.0, 10/8, 100.64/10, 127/8, 169.254/16, 172.16/12, 192.168/16 and 224/4.
pub dial-in_ranges :
    (ok : Bool) (resolved : Option (List Ip)) (ip : Ip) (a b c d : ℕ)
    → Bytes a b c d
    → dial ok resolved ≡ connects ip
    → address_of ip ≡ v4 a b c d
    → in_ranges inner_ranges (number a b c d) ≡ false
dial-in_ranges ok resolved ip a b c d h e same =
    sym (is_disallowed-in_ranges a b c d h)
    ∙ sym (ap is_disallowed same)
    ∙ dial_allowed ok resolved ip e
