-- ===== src/Checks/Fanout.antt =====
-- internal/stream/hub.go with two subscribers, one of which reads nothing.
use pennant.Prelude.{String, none, some, List, [], ◌∷◌, replicate, ◌≡◌, refl}
use pennant.Prelude.Int.{pos}
use pennant.Prelude.Dict.{get}
use pennant.Stream.Types.{Message, Subscriber}
use pennant.Stream.Hub.{Hub, new_hub, subscribers, publish}
use pennant.Stream.Hub.Publishing.{IsRegistry, get-publish}

abbrev patch : Message String
patch = record { event = "patch"; version = pos 3; payload = some "data" }

abbrev client : String → List (Message String) → Subscriber String
client id ch = record {
  id = id;
  env_key = "live";
  project_key = "p";
  sdk_key = "k";
  ch = ch;
  last_sent = pos 0;
  connected_at = 0;
  user_agent = "";
  sdk_version = "";
}

abbrev two_clients : Hub String
two_clients = record new_hub {
  by_env =
      ("live", ("sub-1", client "sub-1" []) ∷ ("sub-2", client "sub-2" (replicate 32 patch)) ∷ [])
      ∷ [];
  active_connections = pos 2;
}

two_clients-IsRegistry : IsRegistry (subscribers two_clients "live")
unfolding get
two_clients-IsRegistry = record { distinct = (refl, (refl, tt)); keyed = (refl, (refl, tt)) }

get-publish_example : get "sub-2" (subscribers (publish two_clients "live" patch) "live") ≡ none
unfolding get
get-publish_example = get-publish two_clients "live" "live" "sub-2" patch two_clients-IsRegistry
