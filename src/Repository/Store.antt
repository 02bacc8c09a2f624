-- ===== src/Repository/Store.antt =====
-- What the repository's methods leave in the store. `At` says which state the store has for an
-- execution, and each rule below carries it over one part of a method.

use executor_service.Common.{
  ◌≡◌, refl, ◌∙◌, ◌≢◌, ◌⊎◌, inl, inr, String, Option, some, arith, eq_iff, eq_refl,
}
use executor_service.Errors.{Error}
use executor_service.Action.{Action, pure}
use executor_service.Action.Triple.{Triple, Triple-pure, Triple-bind, Triple-weaken}
use executor_service.Schemas.State.{ExecutionState}
use executor_service.Platform.{Keys, put}
use executor_service.Clients.Redis
use executor_service.Clients.Redis.{RedisStreamClient}
use executor_service.Repository.{
  RedisExecutionRepository, utc_now, parse, or_raise, key, get, get_required, save, commit,
}

module _ (r : RedisExecutionRepository) where
  -- The keys `m` hold the state `s` of the execution, with `P`; all other keys are as in `base`.
  pub record At (id : String) (base : Keys r.Payload) (P : ExecutionState → Type 0)
      (s : ExecutionState) (m : Keys r.Payload) : Type 0 where
    pub payload : r.Payload
    pub found : m (key r id) ≡ some payload
    pub decoded : r.validate_state payload ≡ some s
    pub own : s.execution_id ≡ id
    pub holds : P s
    pub others : (j : String) → j ≢ key r id → m j ≡ base j

  -- The store has some state of the execution with `P`.
  abbrev pub Holds : String → Keys r.Payload → (ExecutionState → Type 0) → r.World → Type 0
  Holds id base P w = (s : ExecutionState) × At id base P s (r.stored w)

  abbrev pub Now :
      String → Keys r.Payload → (ExecutionState → Type 0) → ExecutionState → r.World → Type 0
  Now id base P s w = At id base P s (r.stored w)

  -- A rule for known keys is a rule for whatever the store holds.
  lift :
      {A : Type 0} {F : Keys r.Payload → Type 0} {m : Action r.World A} {Q : A → r.World → Type 0}
      {E : Error → r.World → Type 0}
      → ((k : Keys r.Payload) → F k → Triple (λ w. r.stored w ≡ k) m Q E)
      → Triple (λ w. F (r.stored w)) m Q E
  lift h = record { at = λ w f. (h (r.stored w) f).at w refl }

  -- An action that leaves Redis alone keeps whatever is said of it.
  pub frame :
      {A : Type 0} {a : Action r.World A} (F : Keys r.Payload → Type 0)
      → ((m : Keys r.Payload)
          → Triple (λ w. r.stored w ≡ m) a (λ _ w. r.stored w ≡ m) (λ _ w. r.stored w ≡ m))
      → Triple (λ w. F (r.stored w)) a (λ _ w. F (r.stored w)) (λ _ w. F (r.stored w))
  frame F law =
      lift {F = F} (λ m f. Triple-weaken (law m) (λ w p. p) (λ v w e. rw e f) (λ x w e. rw e f))

  pub At-mono :
      {id : String} {base : Keys r.Payload} {P Q : ExecutionState → Type 0} {s : ExecutionState}
      {m : Keys r.Payload}
      → (P s → Q s)
      → At id base P s m
      → At id base Q s m
  At-mono h a = record {
    payload = a.payload;
    found = a.found;
    decoded = a.decoded;
    own = a.own;
    holds = h a.holds;
    others = a.others;
  }

  module _ (id : String) (base : Keys r.Payload) (P : ExecutionState → Type 0) where
    parse-finds :
        (v : Option r.Payload) (q : r.Payload) (s : ExecutionState)
        → v ≡ some q
        → r.validate_state q ≡ some s
        → parse r v ≡ pure (some s)
    unfolding parse
    parse-finds v q s e d = rw (e, parse, d)

    -- A loaded state is the one that the store has; `E` is for what the GET raises.
    pub get_required-by :
        {E : Error → r.World → Type 0}
        → ((s : ExecutionState) (m : Keys r.Payload)
            → At id base P s m
            → Triple
                (λ w. r.stored w ≡ m)
                (Redis.get r.redis_client (key r id))
                (λ v w. (v ≡ m (key r id)) × (r.stored w ≡ m))
                E)
        → Triple (Holds id base P) (get_required r id) (Now id base P) E
    unfolding get_required get
    get_required-by reads = lift {F = λ m. (s : ExecutionState) × At id base P s m} (λ m (s, a).
        Triple-bind {Q = λ o w. (o ≡ some s) × At id base P s (r.stored w)}
          (Triple-bind (reads s m a) (λ v. record {
            at = λ w p. rw (parse-finds v a.payload s (p.0 ∙ a.found) a.decoded) (refl, rw p.1 a);
          }))
          (λ o. record { at = λ w p. rw (p.0, or_raise) p.1 }))

    pub get_required-At :
        Triple (Holds id base P) (get_required r id) (Now id base P) (λ _. Holds id base P)
    get_required-At = get_required-by (λ s m a.
        Triple-weaken (Redis.get-reads r.redis_client (key r id) m) (λ w p. p) (λ v w p. p)
          (λ x w e. (s, rw e a)))

    pub utc_now-At :
        {E : Error → r.World → Type 0} (s : ExecutionState)
        → Triple (Now id base P s) (utc_now r) (λ _. Now id base P s) E
    unfolding utc_now
    utc_now-At s = record { at = λ w a. rw (r.stored-clock w) a }

    put-At :
        {Q : ExecutionState → Type 0} (s t : ExecutionState) (m : Keys r.Payload)
        → t.execution_id ≡ s.execution_id
        → (P s → Q t)
        → At id base P s m
        → At id base Q t (put (key r t.execution_id) (r.dump_state t) m)
    put-At s t m same hq a = record {
      payload = r.dump_state t;
      found = rw (same ∙ a.own) (rw (eq_refl (key r id)));
      decoded = r.validate-dump_state t;
      own = same ∙ a.own;
      holds = hq a.holds;
      others = λ j ne. rw (same ∙ a.own) (ground (arith, eq_iff (key r id) j, a.others j));
    }

    either_way :
        {Q R : ExecutionState → Type 0} (s t : ExecutionState) (m m' : Keys r.Payload)
        → At id base P s m
        → At id base Q t (put (key r t.execution_id) (r.dump_state t) m)
        → (P s → R s)
        → (Q t → R t)
        → (m' ≡ m) ⊎ (m' ≡ put (key r t.execution_id) (r.dump_state t) m)
        → (u : ExecutionState) × At id base R u m'
    either_way s t m m' a b hr hr' (inl e) = (s, rw e (At-mono hr a))
    either_way s t m m' a b hr hr' (inr e) = (t, rw e (At-mono hr' b))

    pub commit-At :
        {Q R : ExecutionState → Type 0} (s t : ExecutionState)
        → t.execution_id ≡ s.execution_id
        → (P s → Q t)
        → (P s → R s)
        → (Q t → R t)
        → Triple (Now id base P s) (commit r t) (Now id base Q) (λ _. Holds id base R)
    unfolding commit save
    commit-At {Q} {R} s t same hq hr hr' = lift {F = At id base P s} (λ m a.
        Triple-bind
          (Triple-weaken (Redis.set-writes r.redis_client (key r t.execution_id) (r.dump_state t) m)
            (λ w p. p) (λ v w p. p)
            (λ x w e. either_way {Q = Q} s t m (r.stored w) a (put-At s t m same hq a) hr hr' e))
          (λ _. Triple-pure t (λ w e. rw e (put-At s t m same hq a))))

  module _ {id : String} {base : Keys r.Payload} {P : ExecutionState → Type 0} where
    pub Holds-mono :
        {Q : ExecutionState → Type 0} (w : r.World)
        → ((s : ExecutionState) → P s → Q s)
        → Holds id base P w
        → Holds id base Q w
    Holds-mono w h (s, a) = (s, At-mono (h s) a)

    -- The next part needs only that the store has the state.
    pub after_Now :
        {A : Type 0} {m : Action r.World A} {Q : A → r.World → Type 0}
        {E : Error → r.World → Type 0}
        → Triple (Holds id base P) m Q E
        → (s : ExecutionState) → Triple (Now id base P s) m Q E
    after_Now t s = Triple-weaken t (λ w a. (s, a)) (λ a w q. q) (λ x w e. e)
