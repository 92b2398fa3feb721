-- ===== src/Tools/WebFetch/Guard.antt =====
-- What the guard of runtime/src/tools/web-fetch.ts accepts.
use dream_team.Prelude.{
  ends_with, String, ◌≡◌, ◌≢◌, ◌⊎◌, inl, inr, true, false, none, some, List, [], ◌∷◌, ◌&&◌, ◌||◌,
  ◌==◌, ==_iff, str_eq, eq_iff, All, Option-cases, Bool-cases, arith,
}
use dream_team.Effects.Outcome.{attempt-cases}
use dream_team.Effects.{returns, ok, Session}
use dream_team.Tools.WebFetch.{
  Net, Url, is_private_ip, first_private, check_host, assert_public_http_url,
}
use dream_team.Tools.WebFetch.Public.{IsPublicIp, is_private_ip-IsPublicIp}
use dream_team.Tools.WebFetch.Addresses.{strip_brackets}

module _ {W : Type 0} (net : Net W) where
  -- The host is a public address, or a name that the resolver knows, each of whose addresses is public.
  pub record IsPublicHost (host : String) (s : Session W) : Type 0 where
    pub not_local : (host ≢ "localhost") × (ends_with host ".localhost" ≡ false)
    pub address : net.is_ip host ≢ 0 → IsPublicIp net host
    pub resolved :
        net.is_ip host ≡ 0
        → (found : List String) × ((net.lookup host s.world).0 ≡ returns found)
          × All (IsPublicIp net) found

  first_private-eq-none :
      (found : List String) → first_private net found ≡ none → All (IsPublicIp net) found
  unfolding first_private
  first_private-eq-none [] e = tt
  first_private-eq-none (a ∷ rest) e = elim (Bool-cases (is_private_ip net a)) [
    | inl inner ↦ cc (rw (inner, first_private) at e)
    | inr outer ↦ (
      is_private_ip-IsPublicIp net a outer,
      first_private-eq-none rest (rw (outer, first_private) at e),
    )
  ]

  check_host-IsPublicHost :
      (host : String) (s : Session W) {s' : Session W}
      → check_host net host s ≡ (ok none, s')
      → IsPublicHost host s
  unfolding check_host
  check_host-IsPublicHost host s e =
      elim (Bool-cases (str_eq host "localhost" || ends_with host ".localhost")) [
        | inl loopback ↦ cc (rw (loopback, check_host) at e)
        | inr named ↦
            let far : (host ≢ "localhost") × (ends_with host ".localhost" ≡ false) =
              (ground (arith, named, eq_iff host "localhost"), ground (arith, named)) in
            elim (Bool-cases (net.is_ip host == 0)) [
              | inr address ↦ elim (Bool-cases (is_private_ip net host)) [
                | inl inner ↦
                    cc (rw inner at (rw (address, check_host) at (rw (named, check_host) at e)))
                | inr outer ↦ record {
                  not_local = far;
                  address = λ _. is_private_ip-IsPublicIp net host outer;
                  resolved = λ zero_ip. cc ((==_iff (net.is_ip host) 0).1 zero_ip, address);
                }
              ]
              | inl name ↦ elim (attempt-cases (net.lookup host s.world).0) [
                | inr (x, lost) ↦
                    cc (rw lost at (rw (name, check_host) at (rw (named, check_host) at e)))
                | inl (found, there) ↦ elim (Option-cases (first_private net found)) [
                  | inr (a, inner) ↦ cc (
                      rw inner at
                        (rw there at (rw (name, check_host) at (rw (named, check_host) at e))))
                  | inl clean ↦ record {
                    not_local = far;
                    address = λ n. absurd (n ((==_iff (net.is_ip host) 0).0 name));
                    resolved = λ _. (found, there, first_private-eq-none found clean);
                  }
                ]
              ]
            ]
      ]

  no_user :
      (u : Url)
      → (str_eq u.username "" && str_eq u.password "") ≡ true
      → (u.username ≡ "") × (u.password ≡ "")
  no_user u e = (ground (arith, eq_iff u.username ""), ground (arith, eq_iff u.password ""))

  is_web :
      (u : Url)
      → (str_eq u.protocol "http:" || str_eq u.protocol "https:") ≡ true
      → (u.protocol ≡ "http:") ⊎ (u.protocol ≡ "https:")
  is_web u e = ground (arith, eq_iff u.protocol "http:", eq_iff u.protocol "https:")

  assert_public_http_url-cases :
      (url : String) (s : Session W) {s' : Session W}
      → assert_public_http_url net url s ≡ (ok none, s')
      → (u : Url) × (net.parse_url url ≡ some u)
        × ((str_eq u.protocol "http:" || str_eq u.protocol "https:") ≡ true)
        × ((str_eq u.username "" && str_eq u.password "") ≡ true)
        × (check_host net (strip_brackets u.hostname) s ≡ (ok none, s'))
  unfolding assert_public_http_url
  assert_public_http_url-cases url s e = elim (Option-cases (net.parse_url url)) [
    | inl bad ↦ cc (rw (bad, assert_public_http_url) at e)
    | inr (u, parsed) ↦
        let e₁ = rw (parsed, assert_public_http_url) at e in
        elim (Bool-cases (str_eq u.protocol "http:" || str_eq u.protocol "https:")) [
          | inr other ↦ absurd (let e₂ = rw other at e₁ in cc)
          | inl web ↦
              let e₂ = rw web at e₁ in
              elim (Bool-cases (str_eq u.username "" && str_eq u.password "")) [
                | inr user ↦ absurd (let e₃ = rw user at e₂ in cc)
                | inl plain ↦ (u, parsed, web, plain, rw plain at e₂)
              ]
        ]
  ]

  -- A URL that the guard accepts parses, has the scheme http or https and no user or password, and
  -- its host is no localhost name and is a public address, or a name that resolves to public
  -- addresses alone. A public IPv4 address is four numbers outside 0/8, 10/8, 127/8, 169.254/16,
  -- 172.16/12, 192.168/16 and 100.64/10; a public IPv6 address is neither ::1 nor ::, does not
  -- begin with fe80, fc or fd, and ends, where it is written with dots, in no IPv4 address but a
  -- public one.
  pub assert_public_http_url-IsPublicHost :
      (url : String) (s s' : Session W)
      → assert_public_http_url net url s ≡ (ok none, s')
      → (u : Url) × (net.parse_url url ≡ some u)
        × ((u.protocol ≡ "http:") ⊎ (u.protocol ≡ "https:"))
        × (u.username ≡ "")
        × (u.password ≡ "")
        × IsPublicHost (strip_brackets u.hostname) s
  assert_public_http_url-IsPublicHost url s s' e =
      let (u, parsed, web, plain, accepted) = assert_public_http_url-cases url s e in
      let (user, password) = no_user u plain in
      (u, parsed, is_web u web, user, password, check_host-IsPublicHost _ s accepted)
