-- ===== src/Tests/WebTests.antt =====
-- runtime/src/tools/web-fetch.ts at a concrete network.
use dream_team.Prelude.{
  ends_with, ◌⊎◌, suc, String, ◌≡◌, refl, none, some, [], ◌∷◌, str_eq, false, true, if◌then◌else◌,
}
use dream_team.Json.{Json, str, obj, field, end}
use dream_team.Effects.{returns, ok}
use dream_team.Tools.Types.{ToolExecContext}
use dream_team.Tools.WebFetch.{
  Net, Url, assert_public_http_url, check_host, first_private, is_private_ip, max_redirects,
  web_fetch_execute,
}
use dream_team.Tools.WebFetch.Addresses.{strip_brackets, is_private_v4, is_private_v6}
use dream_team.Tools.WebFetch.Guard.{IsPublicHost, assert_public_http_url-IsPublicHost}
use dream_team.Tools.WebFetch.Guarded.{Returned, AtMost, web_fetch_execute-AtMost}
use dream_team.Tests.World.{Tape, session}

-- A network where every name resolves to a public address and every page is empty.
abbrev net : Net Tape
net = record {
  parse_url = λ _.
      some (record { protocol = "https:"; username = ""; password = ""; hostname = "example.org" });
  resolve_url = λ location base. returns location;
  is_ip = λ s. if str_eq s "example.org" then 0 else 4;
  lookup = λ host tape. (returns ("93.184.215.14" ∷ []), tape);
  fetch = λ url tape.
      (returns (record { status = 200; location = none; content_type = some "text/html" }), tape);
  array_buffer = λ tape. (returns [], tape);
  decode = λ bytes. "";
  to_number = λ v. none;
}

abbrev home : String
home = "https://example.org/"

accepted : assert_public_http_url net home (session []) ≡ (ok none, session [])
unfolding assert_public_http_url check_host first_private is_private_ip is_private_v4 strip_brackets
    ends_with
accepted = refl

assert_public_http_url-IsPublicHost_example :
    (u : Url) × (net.parse_url home ≡ some u)
    × ((u.protocol ≡ "http:") ⊎ (u.protocol ≡ "https:"))
    × (u.username ≡ "")
    × (u.password ≡ "")
    × IsPublicHost net (strip_brackets u.hostname) (session [])
assert_public_http_url-IsPublicHost_example =
    assert_public_http_url-IsPublicHost net home (session []) (session []) accepted

abbrev context : ToolExecContext Tape
context = record {
  boundary = record { workspace_root = "/ws"; read_allowlist = [] };
  confine = none;
  spawn = none;
  connectors = none;
  after_resolve_before_open = none;
}

abbrev request : Json
request = obj (field "url" (str "https://example.org/") end)

web_fetch_execute-AtMost_example :
    Returned
      (AtMost net (suc max_redirects) [])
      (web_fetch_execute net request context (session []))
web_fetch_execute-AtMost_example = web_fetch_execute-AtMost net request context (session [])

metadata : is_private_v4 "169.254.169.254" ≡ true
unfolding is_private_v4
metadata = refl

-- The loopback address, mapped to IPv6 and written in hexadecimal as a URL parser writes it.
mapped_loopback : is_private_v6 (λ _. false) "::ffff:7f00:1" ≡ false
unfolding is_private_v6
mapped_loopback = refl
