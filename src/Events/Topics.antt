-- ===== src/Events/Topics.antt =====
-- What the calls of internal/events do to the channels of a topic.
use pennant.Prelude.{
  ℕ, suc, ◌<◌, String, Option, none, some, List, [], ◌∷◌, ◌++◌, map, true, false, ◌≡◌, refl, sym,
  ap, ◌∙◌, arith, All, eqb, ◌==◌, eq_iff, eq_refl, Bool, if◌then◌else◌, eqb_iff,
}
use pennant.Prelude.Dict.{get, put, get-put}
use pennant.Events.{
  Channel, Bus, channels, channels_or_none, subscribe, unsubscribe, publish, offer, offered,
  with_channels, without_channel,
}

earlier : (a b : ℕ) → a < b → eqb a b ≡ false
earlier a b h = ground arith

module _ {P : Type 0} where
  -- Every channel of the list was made before the n-th.
  abbrev pub IsMadeBefore : ℕ → List (Channel P) → Type 0
  IsMadeBefore n cs = All (λ (c : Channel P). c.number < n) cs

  channels-put :
      (b : Bus P) (topic other : String) (cs : List (Channel P)) (n : ℕ)
      → channels (record { subs = put topic cs b.subs; made = n }) other
        ≡ (if topic == other then cs else channels b other)
  channels-put b topic other cs n =
      ap channels_or_none (get-put topic other cs b.subs) ∙ if_some (topic == other)
    where
      if_some :
          (t : Bool)
          → channels_or_none (if t then some cs else get other b.subs)
            ≡ (if t then cs else channels b other)
      if_some true = refl
      if_some false = refl

  -- A publication offers the payload once to each channel of its topic, in order, and leaves all other topics.
  pub channels-publish :
      (b : Bus P) (topic other : String) (payload : P)
      → channels (publish b topic payload) other
        ≡ (if topic == other then map (offer payload) (channels b topic) else channels b other)
  unfolding publish
  channels-publish b topic other payload = by_entry (get topic b.subs) refl
    where
      nobody :
          (t : Bool)
          → (topic == other) ≡ t
          → get topic b.subs ≡ none
          → channels b other
            ≡ (if t then map (offer payload) (channels b topic) else channels b other)
      nobody true same e =
          ap (λ k. channels b k) (sym ((eq_iff topic other).0 same))
          ∙ ap channels_or_none e
          ∙ sym (ap (λ o. map (offer payload) (channels_or_none o)) e)
      nobody false apart e = refl

      by_entry :
          (o : Option (List (Channel P)))
          → get topic b.subs ≡ o
          → channels (with_channels b topic (offered payload (get topic b.subs))) other
            ≡ (if topic == other then map (offer payload) (channels b topic) else channels b other)
      by_entry none e =
          ap (λ o. channels (with_channels b topic (offered payload o)) other) e
          ∙ nobody (topic == other) refl e
      by_entry (some cs) e =
          ap (λ o. channels (with_channels b topic (offered payload o)) other) e
          ∙ channels-put b topic other (map (offer payload) cs) b.made
          ∙ sym (
              ap
                (λ o.
                  if topic == other
                  then map (offer payload) (channels_or_none o)
                  else channels b other)
                e)

  without_last :
      (cs : List (Channel P)) (c : Channel P)
      → IsMadeBefore c.number cs
      → without_channel c.number (cs ++ c ∷ []) ≡ some cs
  unfolding without_channel
  without_last [] c h = simp ((eqb_iff c.number c.number).1 refl) refl
  without_last (d ∷ cs) c h = simp (earlier d.number c.number h.0, without_last cs c h.1) refl

  -- Unsubscribing the channel that a subscription made gives every topic the channels that it had.
  pub unsubscribe-subscribe :
      (b : Bus P) (topic other : String) (buf_size : ℕ)
      → IsMadeBefore b.made (channels b topic)
      → channels
          (unsubscribe (subscribe b topic buf_size).1 topic (subscribe b topic buf_size).0.number)
          other
        ≡ channels b other
  unfolding subscribe unsubscribe
  unsubscribe-subscribe b topic other buf_size h =
      let joined : Channel P × Bus P = subscribe b topic buf_size in
      let before : List (Channel P) = channels b topic in
      ap (λ cs. channels (with_channels joined.1 topic (without_channel b.made cs)) other)
        (channels-put b topic topic (before ++ joined.0 ∷ []) (suc b.made)
          ∙ ap (λ t. if t then before ++ joined.0 ∷ [] else before) (eq_refl topic))
      ∙ ap (λ o. channels (with_channels joined.1 topic o) other) (without_last before joined.0 h)
      ∙ channels-put joined.1 topic other before (suc b.made)
      ∙ restored (topic == other) refl
    where
      restored :
          (t : Bool)
          → (topic == other) ≡ t
          → (if t then channels b topic else channels (subscribe b topic buf_size).1 other)
            ≡ channels b other
      restored true same = ap (λ k. channels b k) ((eq_iff topic other).0 same)
      restored false apart =
          unfold subscribe in
          channels-put b topic other (channels b topic ++ (subscribe b topic buf_size).0 ∷ [])
            (suc b.made)
          ∙ ap
              (λ t.
                if t
                then channels b topic ++ (subscribe b topic buf_size).0 ∷ []
                else channels b other)
              apart
