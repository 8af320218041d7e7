-- ===== src/Stream/Hub.antt =====
-- internal/stream/hub.go: the subscribers and the replay ring of each environment. Calls come one after the
-- other. A channel is its buffer, and a send through a subscriber's pointer changes the entry of the map.
-- The event bus is stored and never used, so it is left out; `fmt.Sprintf("sub-%d", n)` is an argument.
pub mod Publishing
use pennant.Prelude.{
  ℕ, String, Option, none, some, List, [], ◌∷◌, ◌++◌, Bool, true, false, ltb, length, is_some,
  if◌then◌else◌,
}
use pennant.Prelude.Int.{ℤ, pos, negsuc, ◌+ℤ◌, wrap64}
use pennant.Prelude.Dict.{Dict, get, put, delete}
use pennant.Model.Types.{Time}
use pennant.Stream.Types.{Message, Subscriber}
use pennant.Stream.Ring.{EventRing, new_event_ring, append, since}

-- `make(chan Message, 32)`
abbrev pub channel_capacity : ℕ
channel_capacity = 32

-- The fields of `Metrics` stand beside those of the hub.
pub record Hub (P : Type 0) : Type 0 where
  pub by_env : Dict (Dict (Subscriber P))
  pub rings : Dict (EventRing P)
  pub active_connections : ℤ
  pub slow_client_disconnects : ℤ
  pub publish_count : ℤ
  pub sub_seq : ℤ

-- The entry of a map, made when it is missing.
abbrev pub ensure : {V : Type 0} → String → V → Dict V → Dict V
ensure k v m = if is_some (get k m) then m else put k v m

module _ {P : Type 0} where
  abbrev pub new_hub : Hub P
  new_hub = record {
    by_env = [];
    rings = [];
    active_connections = pos 0;
    slow_client_disconnects = pos 0;
    publish_count = pos 0;
    sub_seq = pos 0;
  }

  unfoldable pub ensure_env : Hub P → String → Hub P
  ensure_env h env = record h {
    by_env = ensure env [] h.by_env;
    rings = ensure env (new_event_ring 256) h.rings;
  }

  -- The subscribers of an environment, none for a nil map.
  abbrev pub or_empty : Option (Dict (Subscriber P)) → Dict (Subscriber P)
  or_empty none = []
  or_empty (some d) = d

  abbrev pub subscribers : Hub P → String → Dict (Subscriber P)
  subscribers h env = or_empty (get env h.by_env)

  unfoldable pub subscribe :
      (ℤ → String) → Time → Hub P → String → String → String → String → Subscriber P × Hub P
  subscribe sub_id now h env_key project_key sdk_key user_agent =
      let n = wrap64 (h.sub_seq +ℤ pos 1) in
      let ensured = ensure_env h env_key in
      let sub : Subscriber P = record {
        id = sub_id n;
        env_key = env_key;
        project_key = project_key;
        sdk_key = sdk_key;
        ch = [];
        last_sent = pos 0;
        connected_at = now;
        user_agent = user_agent;
        sdk_version = "";
      } in
      (
        sub,
        record ensured {
          sub_seq = n;
          by_env = put env_key (put sub.id sub (subscribers ensured env_key)) ensured.by_env;
          active_connections = wrap64 (h.active_connections +ℤ pos 1);
        },
      )

  unfoldable pub unsubscribe : Hub P → String → String → Hub P
  unsubscribe h env_key sub_id =
      if is_some (get sub_id (subscribers h env_key))
      then record h {
        by_env = put env_key (delete sub_id (subscribers h env_key)) h.by_env;
        active_connections = wrap64 (h.active_connections +ℤ negsuc 0);
      }
      else h

  -- There is room in the channel's buffer.
  abbrev pub has_room : Subscriber P → Bool
  has_room s = ltb (length s.ch) channel_capacity

  -- `case s.Ch <- msg`
  abbrev pub send : Message P → Subscriber P → Subscriber P
  send msg s = record s { ch = s.ch ++ msg ∷ []; last_sent = msg.version }

  -- The loop over the subscribers: what it sends, and the ids that it keeps in `slow`.
  unfoldable pub deliver : Message P → Dict (Subscriber P) → Dict (Subscriber P)
  deliver msg [] = []
  deliver msg ((k, s) ∷ d) = (k, if has_room s then send msg s else s) ∷ deliver msg d

  unfoldable pub slow_ids : Dict (Subscriber P) → List String
  slow_ids [] = []
  slow_ids ((k, s) ∷ d) = let rest = slow_ids d in if has_room s then rest else s.id ∷ rest

  -- `for _, id := range slow`
  unfoldable pub disconnect : Hub P → String → List String → Hub P
  disconnect h env_key [] = h
  disconnect h env_key (id ∷ ids) =
      disconnect
        (unsubscribe
          (record h { slow_client_disconnects = wrap64 (h.slow_client_disconnects +ℤ pos 1) })
          env_key id)
        env_key ids

  -- `if h.rings[envKey] != nil { h.rings[envKey].Append(msg) }`
  abbrev pub record_message : String → Message P → Dict (EventRing P) → Dict (EventRing P)
  record_message env_key msg rings = elim (get env_key rings) [
    | none ↦ rings
    | some r ↦ put env_key (append r msg) rings
  ]

  -- The channels of an environment after the sends; a nil map has none.
  abbrev pub delivered :
      String → Message P → Dict (Dict (Subscriber P)) → Dict (Dict (Subscriber P))
  delivered env_key msg by_env = elim (get env_key by_env) [
    | none ↦ by_env
    | some d ↦ put env_key (deliver msg d) by_env
  ]

  unfoldable pub publish : Hub P → String → Message P → Hub P
  publish h env_key msg =
      disconnect
        (record h {
          rings = record_message env_key msg h.rings;
          by_env = delivered env_key msg h.by_env;
          publish_count = wrap64 (h.publish_count +ℤ pos 1);
        })
        env_key (slow_ids (subscribers h env_key))

  unfoldable pub replay : Hub P → String → ℤ → List (Message P) × Bool
  replay h env_key version = elim (get env_key h.rings) [
    | none ↦ ([], false)
    | some ring ↦ since ring version
  ]

  unfoldable pub active_count : Hub P → String → ℕ
  active_count h env_key = length (subscribers h env_key)
