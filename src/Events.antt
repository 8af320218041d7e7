-- ===== src/Events.antt =====
-- internal/events/bus.go: the channels of each topic. A channel is known by its number and is the list of
-- what is in its buffer, oldest first; nobody waits on it while a payload is published. Calls come one
-- after the other.
pub mod Topics
use pennant.Prelude.{
  ℕ, suc, String, Option, none, some, List, [], ◌∷◌, ◌++◌, map, ltb, eqb, length, if◌then◌else◌,
}
use pennant.Prelude.Dict.{Dict, get, put}

pub record Channel (P : Type 0) : Type 0 where
  pub number : ℕ
  pub capacity : ℕ
  pub buffer : List P

-- `made` counts the channels made so far.
pub record Bus (P : Type 0) : Type 0 where
  pub subs : Dict (List (Channel P))
  pub made : ℕ

module _ {P : Type 0} where
  abbrev pub new_bus : Bus P
  new_bus = record { subs = []; made = 0 }

  abbrev pub channels_or_none : Option (List (Channel P)) → List (Channel P)
  channels_or_none none = []
  channels_or_none (some cs) = cs

  -- `b.subs[topic]`, nil if it is missing
  abbrev pub channels : Bus P → String → List (Channel P)
  channels b topic = channels_or_none (get topic b.subs)

  unfoldable pub subscribe : Bus P → String → ℕ → Channel P × Bus P
  subscribe b topic buf_size =
      let ch : Channel P = record { number = b.made; capacity = buf_size; buffer = [] } in
      (ch, record { subs = put topic (channels b topic ++ ch ∷ []) b.subs; made = suc b.made })

  -- The channels without the first that is this one, if there is one.
  unfoldable pub without_channel : ℕ → List (Channel P) → Option (List (Channel P))
  without_channel n [] = none
  without_channel n (c ∷ cs) =
      let rest = without_channel n cs in if eqb c.number n then some cs else kept c rest
    where
      kept : Channel P → Option (List (Channel P)) → Option (List (Channel P))
      kept c none = none
      kept c (some cs) = some (c ∷ cs)

  -- `b.subs[topic] = …`, where there are such channels.
  abbrev pub with_channels : Bus P → String → Option (List (Channel P)) → Bus P
  with_channels b topic none = b
  with_channels b topic (some cs) = record b { subs = put topic cs b.subs }

  unfoldable pub unsubscribe : Bus P → String → ℕ → Bus P
  unsubscribe b topic n = with_channels b topic (without_channel n (channels b topic))

  -- The send of the select, or its default.
  abbrev pub offer : P → Channel P → Channel P
  offer payload c =
      if ltb (length c.buffer) c.capacity then record c { buffer = c.buffer ++ payload ∷ [] } else c

  abbrev pub offered : P → Option (List (Channel P)) → Option (List (Channel P))
  offered payload none = none
  offered payload (some cs) = some (map (offer payload) cs)

  unfoldable pub publish : Bus P → String → P → Bus P
  publish b topic payload = with_channels b topic (offered payload (get topic b.subs))
