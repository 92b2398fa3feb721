-- ===== src/Tools/WebFetch/Calm.antt =====
-- web_fetch of runtime/src/tools/web-fetch.ts returns or throws, and changes only the world.
use dream_team.Prelude.{
  ltb, leb, ◌&&◌, ◌||◌, str_eq, refl, ℕ, zero, suc, String, inl, inr, Option, arith, Option-cases,
  Bool-cases,
}
use dream_team.Json.{Json, get}
use dream_team.Effects.Outcome.{attempt-cases}
use dream_team.Effects.Settled.{Calm, Calm-bind}
use dream_team.Tools.Types.{ToolExecContext}
use dream_team.Tools.WebFetch.Addresses.{strip_brackets}
use dream_team.Tools.WebFetch.Guarded.{outcome}
use dream_team.Tools.WebFetch.{
  Net, Response, web_fetch_execute, redirect, max_redirects, cap_of, check_host,
  assert_public_http_url, read_body, hops, url_in,
}

module _ {W : Type 0} (D : Type 0) where
  module _ (net : Net W) where
    check_host-Calm : (h : String) → Calm D (check_host net h)
    unfolding check_host
    check_host-Calm h s = ground arith

    assert_public_http_url-Calm : (raw : String) → Calm D (assert_public_http_url net raw)
    unfolding assert_public_http_url
    assert_public_http_url-Calm raw s = elim (Option-cases (net.parse_url raw)) [
      | inl bad ↦ rw (bad, assert_public_http_url) (tt, refl)
      | inr (u, parsed) ↦
          elim (Bool-cases (str_eq u.protocol "http:" || str_eq u.protocol "https:")) [
            | inr other ↦
                rw (parsed, assert_public_http_url) (rw (other, assert_public_http_url) (tt, refl))
            | inl web ↦ elim (Bool-cases (str_eq u.username "" && str_eq u.password "")) [
              | inr user ↦
                  rw (parsed, assert_public_http_url)
                    (rw (web, assert_public_http_url)
                      (rw (user, assert_public_http_url) (tt, refl)))
              | inl plain ↦
                  rw (parsed, assert_public_http_url)
                    (rw (web, assert_public_http_url)
                      (rw (plain, assert_public_http_url)
                        (check_host-Calm (strip_brackets u.hostname) s)))
            ]
          ]
    ]

    read_body-Calm : (bound : Option ℕ) (res : Response) → Calm D (read_body net bound res)
    unfolding read_body
    read_body-Calm bound res s = ground arith

    hops-Calm :
        (left : ℕ) (current : String) (bound : Option ℕ) → Calm D (hops net left current bound)
    unfolding hops
    hops-Calm zero current bound s = (tt, refl)
    hops-Calm (suc left) current bound s =
        Calm-bind D (assert_public_http_url net current) _ (assert_public_http_url-Calm current)
          (λ refusal s'. elim (Option-cases refusal) [
            | inr (reason, barred) ↦ rw barred (tt, refl)
            | inl clear ↦ elim (attempt-cases (net.fetch current s'.world).0) [
              | inr (x, e) ↦ rw clear (rw e (tt, refl))
              | inl (res, e) ↦ elim (Bool-cases (leb 300 res.status && ltb res.status 400)) [
                | inr here ↦ rw clear (rw e (rw here (read_body-Calm bound res _)))
                | inl moved ↦ elim (outcome (redirect net current res)) [
                  | inr (inl (x, raised)) ↦ rw clear (rw e (rw moved (rw raised (tt, refl))))
                  | inr (inr (obs, nowhere)) ↦ rw clear (rw e (rw moved (rw nowhere (tt, refl))))
                  | inl (target, leads) ↦
                      rw clear (rw e (rw moved (rw leads (hops-Calm left target bound _))))
                ]
              ]
            ]
          ])
          s

    pub web_fetch_execute-Calm :
        (input : Json) (ctx : ToolExecContext W) → Calm D (web_fetch_execute net input ctx)
    unfolding web_fetch_execute
    web_fetch_execute-Calm input ctx s = elim (Option-cases (url_in (get input "url"))) [
      | inl missing ↦ rw (missing, web_fetch_execute) (tt, refl)
      | inr (url, given) ↦
          rw (given, web_fetch_execute)
            (hops-Calm (suc max_redirects) url (cap_of net (get input "maxBytes")) s)
    ]
