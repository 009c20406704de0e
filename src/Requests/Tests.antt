-- ===== src/Requests/Tests.antt =====
-- Clients and lists at concrete inputs.
use yurucommu_core.Base.{
  ◌≢◌, map, length, JsString, true, str_eq, str_gt, ◌≡◌, inl, refl, false, none, some, List, [],
  ◌∷◌, js, arith,
}
use yurucommu_core.Requests.ClientIp.{
  Origin, Headers, proxy_trust, get_client_ip, spoofed_headers_ignored,
}
use yurucommu_core.Requests.Conditional.{out_of_fuel, tags, quoted, entity_tags}
use yurucommu_core.Requests.Conditional.Termination.{entity_tags-terminates}
use yurucommu_core.Requests.Conditional.Lists.{Tag, render, entity_tags-render}
use yurucommu_core.Requests.FeedCursor.{Row, is_older}
use yurucommu_core.Requests.FeedCursor.Pages.{read_pages, read_pages-all}

abbrev bare_origin : Origin
bare_origin = record {
  takos_trust_proxy = none;
  on_cloudflare_edge = false;
  socket_ip = some (js "192.0.2.7");
}

abbrev no_headers : Headers
no_headers = record { cf_connecting_ip = none; x_forwarded_for = none; x_real_ip = none }

abbrev forged_headers : Headers
forged_headers = record {
  cf_connecting_ip = some (js "10.0.0.1");
  x_forwarded_for = some (js "10.0.0.2, 10.0.0.3");
  x_real_ip = some (js "10.0.0.4");
}

spoofed_headers_ignored_example :
    get_client_ip bare_origin forged_headers ≡ get_client_ip bare_origin no_headers
unfolding proxy_trust
spoofed_headers_ignored_example =
    spoofed_headers_ignored bare_origin forged_headers no_headers refl (inl refl)

abbrev field : JsString
field = js "\"a\", W/\"b\""

entity_tags-terminates_example :
    (entity_tags 11 field ≢ out_of_fuel) × (entity_tags 20 field ≡ entity_tags 11 field)
entity_tags-terminates_example = entity_tags-terminates 11 20 field (omega arith) (omega arith)

abbrev two_tags : List Tag
two_tags = record { weak = true; body = js "a,b" } ∷ record { weak = false; body = js "c" } ∷ []

entity_tags-render_example :
    entity_tags (length (render two_tags)) (render two_tags)
    ≡ tags (map (λ t. quoted t.body) two_tags)
entity_tags-render_example = entity_tags-render two_tags refl

-- Two posts of one second, and an older one.
abbrev feed : List Row
feed =
    record { published = js "2026-02"; ap_id = js "b" }
    ∷ record { published = js "2026-02"; ap_id = js "a" }
    ∷ record { published = js "2026-01"; ap_id = js "c" }
    ∷ []

read_pages-all_example : read_pages 3 2 none feed ≡ feed
unfolding is_older str_gt str_eq
read_pages-all_example =
    read_pages-all 2 feed (refl, (refl, (refl, tt)), (refl, (refl, tt), (refl, tt, tt)))
      (omega arith)
