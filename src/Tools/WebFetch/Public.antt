-- ===== src/Tools/WebFetch/Public.antt =====
-- The addresses that web_fetch of runtime/src/tools/web-fetch.ts may reach, stated apart from its tests.
use text.Mathlib.Text.{starts_with}
use dream_team.Prelude.{
  ℕ, ◌≤◌, String, ◌≡◌, ◌≢◌, refl, true, false, some, Option, List, [], ◌∷◌, lower, eq_iff, ◌==◌,
  ==_iff, arith, has_code_point,
}
use dream_team.Tools.WebFetch.{Net, is_private_ip}
use dream_team.Tools.WebFetch.Addresses.{
  octets, is_private_range, is_private_v4, is_private_v6, after_last_colon,
}

-- The networks of which an IPv4 address that begins with `a.b` is no public one: 0/8, 10/8, 127/8,
-- 169.254/16, 172.16/12, 192.168/16 and 100.64/10.
pub data Reserved (a b : ℕ) : Type 0 where
  this_network : a ≡ 0 → Reserved a b
  private_a : a ≡ 10 → Reserved a b
  loopback : a ≡ 127 → Reserved a b
  link_local : a ≡ 169 → b ≡ 254 → Reserved a b
  private_b : a ≡ 172 → 16 ≤ b → b ≤ 31 → Reserved a b
  private_c : a ≡ 192 → b ≡ 168 → Reserved a b
  shared : a ≡ 100 → 64 ≤ b → b ≤ 127 → Reserved a b

-- Four numbers, in none of those networks.
pub record IsPublicV4 (ip : String) : Type 0 where
  pub a : ℕ
  pub b : ℕ
  pub c : ℕ
  pub d : ℕ
  pub quad : octets ip ≡ some a ∷ some b ∷ some c ∷ some d ∷ []
  pub outside : ¬ Reserved a b

module _ {W : Type 0} (net : Net W) where
  -- Not loopback and not the unspecified address, not of fe80 or fc00::/7, and no public IPv4 address
  -- is hidden behind the last colon.
  pub record IsPublicV6 (ip : String) : Type 0 where
    pub no_loopback : ip ≢ "::1"
    pub specified : ip ≢ "::"
    pub no_link_local : starts_with ip "fe80" ≡ false
    pub no_unique_local : (starts_with ip "fc" ≡ false) × (starts_with ip "fd" ≡ false)
    pub mapped :
        has_code_point 46 ip ≡ true
        → net.is_ip (after_last_colon ip) ≡ 4
        → IsPublicV4 (after_last_colon ip)

  pub record IsPublicIp (ip : String) : Type 0 where
    pub v4 : net.is_ip ip ≡ 4 → IsPublicV4 ip
    pub v6 : net.is_ip ip ≡ 6 → IsPublicV6 (lower ip)

is_private_range-Reserved : (a b : ℕ) → is_private_range a b ≡ false → ¬ Reserved a b
unfolding is_private_range
is_private_range-Reserved a b e (this_network x) = ground arith
is_private_range-Reserved a b e (private_a x) = ground arith
is_private_range-Reserved a b e (loopback x) = ground arith
is_private_range-Reserved a b e (link_local x y) = ground arith
is_private_range-Reserved a b e (private_b x y z) = ground arith
is_private_range-Reserved a b e (private_c x y) = ground arith
is_private_range-Reserved a b e (shared x y z) = ground arith

quad-outside :
    (ip : String) (os : List (Option ℕ)) → octets ip ≡ os → is_private_v4 ip ≡ false → IsPublicV4 ip
unfolding is_private_v4
quad-outside ip (some a ∷ some b ∷ some c ∷ some d ∷ []) same e = record {
  a = a;
  b = b;
  c = c;
  d = d;
  quad = same;
  outside = is_private_range-Reserved a b (rw (same, is_private_v4) at e);
}
quad-outside ip _ same e = cc (rw (same, is_private_v4) at e)

module _ {W : Type 0} (net : Net W) where
  is_private_v6-IsPublicV6 :
      (ip : String) → is_private_v6 (λ tail. net.is_ip tail == 4) ip ≡ false → IsPublicV6 net ip
  unfolding is_private_v6
  is_private_v6-IsPublicV6 ip e = record {
    no_loopback = ground (arith, eq_iff ip "::1");
    specified = ground (arith, eq_iff ip "::");
    no_link_local = ground arith;
    no_unique_local = (ground arith, ground arith);
    mapped = λ dotted four.
        quad-outside (after_last_colon ip) _ refl
          (ground (arith, ==_iff (net.is_ip (after_last_colon ip)) 4));
  }

  -- What the code's test lets through.
  pub is_private_ip-IsPublicIp : (ip : String) → is_private_ip net ip ≡ false → IsPublicIp net ip
  unfolding is_private_ip
  is_private_ip-IsPublicIp ip e = record {
    v4 = λ four. quad-outside ip _ refl (ground (arith, ==_iff (net.is_ip ip) 4));
    v6 = λ six.
        is_private_v6-IsPublicV6 (lower ip)
          (ground (arith, ==_iff (net.is_ip ip) 4, ==_iff (net.is_ip ip) 6));
  }
