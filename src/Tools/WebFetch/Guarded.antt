-- ===== src/Tools/WebFetch/Guarded.antt =====
-- Which requests the web_fetch tool of runtime/src/tools/web-fetch.ts makes.
use dream_team.Prelude.{
  ends_with, ℕ, zero, suc, ◌+◌, ◌≤◌, String, ◌≡◌, refl, subst, ◌⊎◌, inl, inr, Option, none, ◌&&◌,
  leb, ltb, Option-cases, Bool-cases, arith, str_eq, ◌||◌, ◌==◌,
}
use dream_team.Json.{Json, get}
use dream_team.Effects.Outcome.{attempt-cases}
use dream_team.Effects.{JsError, Attempt, returns, throws, Result, ok, err, Session}
use dream_team.Tools.Types.{ToolExecContext, ToolObservation}
use dream_team.Tools.WebFetch.Addresses.{strip_brackets}
use dream_team.Tools.WebFetch.{
  Net, Response, max_redirects, url_in, first_private, check_host, assert_public_http_url,
  read_body, redirect, hops, cap_of, web_fetch_execute,
}

-- An action that returned, and the world that it left.
abbrev pub Returned : {W A : Type 0} → (W → Type 0) → Result A × Session W → Type 0
Returned P (ok a, s') = P s'.world
Returned P (err e, s') = ⊥

Returned-cases :
    {W A : Type 0} (x : Result A × Session W)
    → Returned (λ _. Unit) x
    → (a : A) × (s' : Session W) × (x ≡ (ok a, s'))
Returned-cases (ok a, s') h = (a, s', refl)
Returned-cases (err e, s') h = absurd h

pub outcome :
    (x : Attempt String ⊎ ToolObservation)
    → ((next : String) × (x ≡ inl (returns next)))
      ⊎ (((e : JsError) × (x ≡ inl (throws e))) ⊎ ((obs : ToolObservation) × (x ≡ inr obs)))
outcome (inl (returns next)) = inl (next, refl)
outcome (inl (throws e)) = inr (inl (e, refl))
outcome (inr obs) = inr (inr (obs, refl))

module _ {W : Type 0} (net : Net W) where
  -- A run of the tool from one world to another, with the number of requests sent: each request is for
  -- a URL that the guard accepted right before it.
  pub data Requests (w₀ : W) : ℕ → W → Type 0 where
    start : Requests w₀ 0 w₀
    -- the guard refused, or raised
    guarded :
        {n : ℕ} {w : W} (url : String) (s : Session W)
        → s.world ≡ w
        → Requests w₀ n w
        → Requests w₀ n (assert_public_http_url net url s).1.world
    sent :
        {n : ℕ} {w : W} (url : String) (s s' : Session W)
        → s.world ≡ w
        → assert_public_http_url net url s ≡ (ok none, s')
        → Requests w₀ n w
        → Requests w₀ (suc n) (net.fetch url s'.world).1
    read : {n : ℕ} {w : W} → Requests w₀ n w → Requests w₀ n (net.array_buffer w).1

  -- At most so many requests.
  abbrev pub AtMost : ℕ → W → W → Type 0
  AtMost most w₀ w = (n : ℕ) × (n ≤ most) × Requests w₀ n w

  check_host-returns :
      (host : String) (s : Session W) → Returned (λ _. Unit) (check_host net host s)
  unfolding check_host
  check_host-returns host s =
      elim (Bool-cases (str_eq host "localhost" || ends_with host ".localhost")) [
        | inl loopback ↦ rw (loopback, check_host) tt
        | inr named ↦ elim (Bool-cases (net.is_ip host == 0)) [
          | inr address ↦ rw (named, check_host) (rw (address, check_host) tt)
          | inl looked ↦ elim (attempt-cases (net.lookup host s.world).0) [
            | inr (x, e) ↦ rw (named, check_host) (rw (looked, check_host) (rw e tt))
            | inl (found, e) ↦ elim (Option-cases (first_private net found)) [
              | inl clean ↦ rw (named, check_host) (rw (looked, check_host) (rw e (rw clean tt)))
              | inr (a, inner) ↦
                  rw (named, check_host) (rw (looked, check_host) (rw e (rw inner tt)))
            ]
          ]
        ]
      ]

  assert_public_http_url-returns :
      (url : String) (s : Session W) → Returned (λ _. Unit) (assert_public_http_url net url s)
  unfolding assert_public_http_url
  assert_public_http_url-returns url s = elim (Option-cases (net.parse_url url)) [
    | inl bad ↦ rw (bad, assert_public_http_url) tt
    | inr (u, parsed) ↦
        elim (Bool-cases (str_eq u.protocol "http:" || str_eq u.protocol "https:")) [
          | inr other ↦ rw (parsed, assert_public_http_url) (rw (other, assert_public_http_url) tt)
          | inl web ↦ elim (Bool-cases (str_eq u.username "" && str_eq u.password "")) [
            | inr user ↦
                rw (parsed, assert_public_http_url)
                  (rw (web, assert_public_http_url) (rw (user, assert_public_http_url) tt))
            | inl plain ↦
                rw (parsed, assert_public_http_url)
                  (rw (web, assert_public_http_url)
                    (rw (plain, assert_public_http_url)
                      (check_host-returns (strip_brackets u.hostname) s)))
          ]
        ]
  ]

  read_body-AtMost :
      (w₀ : W) (n most : ℕ) (bound : Option ℕ) (res : Response) (s : Session W)
      → n ≤ most
      → Requests w₀ n s.world
      → Returned (AtMost most w₀) (read_body net bound res s)
  unfolding read_body
  read_body-AtMost w₀ n most bound res s le r = elim (attempt-cases (net.array_buffer s.world).0) [
    | inl (bytes, e) ↦ rw e (n, le, read r)
    | inr (x, e) ↦ rw e (n, le, read r)
  ]

  hops-AtMost :
      (w₀ : W) (left n : ℕ) (current : String) (bound : Option ℕ) (s : Session W)
      → Requests w₀ n s.world
      → Returned (AtMost (left + n) w₀) (hops net left current bound s)
  unfolding hops
  hops-AtMost w₀ zero n current bound s r = (n, omega arith, r)
  hops-AtMost w₀ (suc left) n current bound s r =
      let (refusal, s', run) =
        Returned-cases (assert_public_http_url net current s)
          (assert_public_http_url-returns current s) in
      elim (Option-cases refusal) [
        | inr (reason, barred) ↦
            let done = rw barred at run in
            rw done
              (n, omega arith, subst (λ x. Requests w₀ n x.1.world) done (guarded current s refl r))
        | inl clear ↦
            let done = rw clear at run in
            let r' : Requests w₀ (suc n) (net.fetch current s'.world).1 =
              sent current s s' refl done r in
            elim (attempt-cases (net.fetch current s'.world).0) [
              | inr (x, e) ↦ rw done (rw e (suc n, omega arith, r'))
              | inl (res, e) ↦
                  let s'' : Session W = record s' { world = (net.fetch current s'.world).1 } in
                  elim (Bool-cases (leb 300 res.status && ltb res.status 400)) [
                    | inr here ↦ rw done (
                        rw e (
                          rw here (
                            read_body-AtMost w₀ (suc n) (suc left + n) bound res s'' (omega arith)
                              r')))
                    | inl moved ↦ elim (outcome (redirect net current res)) [
                      | inr (inl (x, raised)) ↦
                          rw done (rw e (rw moved (rw raised (suc n, omega arith, r'))))
                      | inr (inr (obs, nowhere)) ↦
                          rw done (rw e (rw moved (rw nowhere (suc n, omega arith, r'))))
                      | inl (target, leads) ↦ rw done (
                          rw e (
                            rw moved (
                              rw leads (
                                subst (λ k. Returned (AtMost k w₀) (hops net left target bound s''))
                                  (omega arith)
                                  (hops-AtMost w₀ left (suc n) target bound s'' r')))))
                    ]
                  ]
            ]
      ]

  -- The web_fetch tool always answers, and it sends at most six requests, each for a URL that the guard
  -- accepted right before it.
  pub web_fetch_execute-AtMost :
      (input : Json) (ctx : ToolExecContext W) (s : Session W)
      → Returned (AtMost (suc max_redirects) s.world) (web_fetch_execute net input ctx s)
  unfolding web_fetch_execute
  web_fetch_execute-AtMost input ctx s = elim (Option-cases (url_in (get input "url"))) [
    | inl missing ↦ rw (missing, web_fetch_execute) (0, omega arith, start)
    | inr (url, given) ↦
        rw (given, web_fetch_execute)
          (hops-AtMost s.world (suc max_redirects) 0 url (cap_of net (get input "maxBytes")) s
            start)
  ]
