-- ===== src/Entrypoint/Tests.antt =====
-- Witnesses for the theorems on host names.
use godoxy.Prelude.{◌≡◌, refl, List, [], ◌∷◌, ◌++◌}
use godoxy.Prelude.Bytes.{bytes_eq, codes}
use godoxy.Rules.Parser.{trim_left}
use godoxy.Rules.On.{trim_space, trim_right}
use godoxy.Entrypoint.ShortLink.{
  new_short_link_tree, Change, adds, deletes, change, changes, add_route, add_trimmed, del_route,
  del_trimmed, serve_http, target_host, redirect, link_not_found,
}
use godoxy.Entrypoint.ShortLink.Dangling.{IsLive, changes-Live}

abbrev two_hosts : List Change
two_hosts = adds (codes "app.a.b") ∷ adds (codes "app.c.d") ∷ []

changes-Live_example :
    IsLive (changes two_hosts new_short_link_tree).fqdn_routes (codes "app") (codes "app.a.b")
unfolding changes change add_route add_trimmed trim_space trim_left trim_right bytes_eq
    new_short_link_tree
changes-Live_example = changes-Live two_hosts (codes "app") (codes "app.a.b") refl

served_link :
    serve_http (codes "/app/x") [] (changes two_hosts new_short_link_tree)
    ≡ redirect (codes "https://app.a.b/x")
unfolding serve_http target_host changes change add_route add_trimmed trim_space trim_left
    trim_right bytes_eq new_short_link_tree
served_link = refl

-- The other name with this label has a route, but the link is gone with the first.
lost_link :
    serve_http
      (codes "/app/x")
      []
      (changes (two_hosts ++ deletes (codes "app.a.b") ∷ []) new_short_link_tree)
    ≡ link_not_found
unfolding serve_http target_host changes change add_route add_trimmed del_route del_trimmed
    trim_space trim_left trim_right bytes_eq new_short_link_tree
lost_link = refl
