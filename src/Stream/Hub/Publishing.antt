-- ===== src/Stream/Hub/Publishing.antt =====
-- Who gets a message that internal/stream/hub.go publishes, and who is disconnected.
use pennant.Prelude.{
  String, Option, none, some, List, [], ◌∷◌, false, not, ◌&&◌, ◌≡◌, refl, ◌∙◌, ◌==◌, eq_iff, arith,
  All, member, ◌>>=◌, or_else, if◌then◌else◌,
}
use pennant.Prelude.Int.{pos, ◌+ℤ◌, wrap64}
use pennant.Prelude.Dict.{Dict, get, put, delete, Distinct, get-put, get-delete}
use pennant.Stream.Types.{Message, Subscriber}
use pennant.Stream.Hub.{
  Hub, or_empty, subscribers, unsubscribe, has_room, send, deliver, slow_ids, disconnect, delivered,
  publish,
}

module _ {P : Type 0} where
  -- No id stands twice, and each subscriber stands under its own.
  pub record IsRegistry (d : Dict (Subscriber P)) : Type 0 where
    pub distinct : Distinct d
    pub keyed : All (λ (e : String × Subscriber P). e.1.id ≡ e.0) d

  get-deliver :
      (id : String) (msg : Message P) (d : Dict (Subscriber P))
      → get id (deliver msg d) ≡ (get id d >>= λ s. some (if has_room s then send msg s else s))
  unfolding get deliver
  get-deliver id msg [] = refl
  get-deliver id msg ((k, s) ∷ d) = ground (arith, get-deliver id msg d)

  member-slow_ids :
      (id : String) (d : Dict (Subscriber P))
      → Distinct d
      → All (λ (e : String × Subscriber P). e.1.id ≡ e.0) d
      → member id (slow_ids d) ≡ or_else (get id d >>= λ s. some (not (has_room s))) false
  unfolding get slow_ids
  member-slow_ids id [] distinct keyed = refl
  member-slow_ids id ((k, s) ∷ d) distinct keyed = ground (
    arith,
    member-slow_ids id d distinct.1 keyed.1,
    keyed.0,
    distinct.0,
    eq_iff k id,
    eq_iff s.id id,
  )

  get-unsubscribe :
      (h : Hub P) (env id other k : String)
      → get k (subscribers (unsubscribe h env id) other)
        ≡ (if env == other && id == k then none else get k (subscribers h other))
  unfolding unsubscribe
  get-unsubscribe h env id other k = ground (
    arith,
    eq_iff env other,
    eq_iff id k,
    get-put env other (delete id (subscribers h env)) h.by_env,
    get-delete id k (subscribers h env),
  )

  get-disconnect :
      (h : Hub P) (env : String) (ids : List String) (other k : String)
      → get k (subscribers (disconnect h env ids) other)
        ≡ (if env == other && member k ids then none else get k (subscribers h other))
  unfolding disconnect
  get-disconnect h env [] other k = ground arith
  get-disconnect h env (id ∷ ids) other k =
      let counted : Hub P = record h {
        slow_client_disconnects = wrap64 (h.slow_client_disconnects +ℤ pos 1);
      } in
      get-disconnect (unsubscribe counted env id) env ids other k
      ∙ ground (arith, get-unsubscribe counted env id other k)

  get-delivered :
      (env other k : String) (msg : Message P) (by_env : Dict (Dict (Subscriber P)))
      → get k (or_empty (get other (delivered env msg by_env))) ≡ (
          if env == other
          then (get k (or_empty (get env by_env)) >>= λ s.
              some (if has_room s then send msg s else s))
          else get k (or_empty (get other by_env)))
  get-delivered env other k msg by_env = by_lookup (get env by_env) refl
    where
      by_lookup :
          (o : Option (Dict (Subscriber P)))
          → get env by_env ≡ o
          → get k (
              or_empty
                (get other (elim o [ none ↦ by_env | some d ↦ put env (deliver msg d) by_env ])))
            ≡ (if env == other
                then (get k (or_empty o) >>= λ s. some (if has_room s then send msg s else s))
                else get k (or_empty (get other by_env)))
      by_lookup none e = unfold get in ground (arith, eq_iff env other, e)
      by_lookup (some d) e =
          ground
            (arith, eq_iff env other, get-put env other (deliver msg d) by_env, get-deliver k msg d)

  -- After a message is published to an environment, each of its subscribers whose buffer had room has the
  -- message at the end of it, each one whose buffer was full is gone, and nobody is added; the subscribers
  -- of all other environments are as they were. The registry of the environment is one whose ids are not
  -- repeated and under which the subscribers stand.
  pub get-publish :
      (h : Hub P) (env other id : String) (msg : Message P)
      → IsRegistry (subscribers h env)
      → get id (subscribers (publish h env msg) other) ≡ (
          if env == other
          then (get id (subscribers h env) >>= λ s. if has_room s then some (send msg s) else none)
          else get id (subscribers h other))
  unfolding publish
  get-publish h env other id msg r =
      get-disconnect _ env (slow_ids (subscribers h env)) other id
      ∙ ground (
        arith,
        get-delivered env other id msg h.by_env,
        member-slow_ids id (subscribers h env) r.distinct r.keyed,
      )
