-- ===== src/Tests/Servers.antt =====
-- Two servers for one capability.
use tool_smith.Base.{◌≡◌, refl, ascii, [], ◌∷◌, true, false, some, keep, All, contains, str_eq}
use tool_smith.Base.Int.{pos}
use tool_smith.Discovery.{
  McpServerEntry, is_valid_url, skip_while, offers, get_servers_for_capability, get_best_server_for,
  sort_servers, insert_server,
}
use tool_smith.Discovery.Best.{OneOf, NoWorse, get_best_server_for-best}

valid : is_valid_url (ascii "https://a.b-c:80/x?y") ≡ true
unfolding is_valid_url skip_while str_eq
valid = refl

no_port : is_valid_url (ascii "http://a:/x") ≡ false
unfolding is_valid_url skip_while str_eq
no_port = refl

abbrev far : McpServerEntry
far = record {
  name = ascii "far";
  url = ascii "http://far";
  capabilities = ascii "echo" ∷ [];
  priority = pos 5;
  timeout_seconds = pos 30;
}

abbrev near : McpServerEntry
near = record far { name = ascii "near"; priority = pos 2 }

near_first : get_best_server_for (ascii "echo") (far ∷ near ∷ []) ≡ some near
unfolding get_best_server_for get_servers_for_capability sort_servers insert_server contains str_eq
near_first = refl

get_best_server_for-best_example :
    OneOf near (keep (offers (ascii "echo")) (far ∷ near ∷ []))
    × All (NoWorse near) (keep (offers (ascii "echo")) (far ∷ near ∷ []))
get_best_server_for-best_example =
    get_best_server_for-best (ascii "echo") (far ∷ near ∷ []) near near_first
