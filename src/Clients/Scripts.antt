-- ===== src/Clients/Scripts.antt =====
-- clients/redis.py, the submission: the Lua script _ATOMIC_SUBMIT_SCRIPT and
-- RedisStreamClient.submit, which runs it.
use executor_service.Common.{
  ℕ, ◌≡◌, refl, ◌⊎◌, inl, inr, Bool, true, false, String, List, [], ◌∷◌, ◌++◌, Option, none, some,
  is_some, ◌==◌, if◌then◌else◌,
}
use executor_service.Errors.{
  Error, infrastructure_error, redis_error, response_error, duplicate_execution_error,
}
use executor_service.Action.{Action, pure, raise, ◌except◌, ◌>>=◌, ◌>>◌}
use executor_service.Action.Triple.{
  Triple, Triple-pure, Triple-raise, Triple-bind, Triple-weaken, Triple-except,
}
use executor_service.Platform.{Keys, put}
use executor_service.Clients.Redis.{RedisStreamClient, wrap}

abbrev pub is_duplicate : Error → Bool
is_duplicate (duplicate_execution_error _) = true
is_duplicate _ = false

-- The server holds the keys `m`, and the stream the entries `e`: their ids and payloads.
abbrev pub Stands :
    (c : RedisStreamClient)
    → (c.World → List (String × c.Payload))
    → Keys c.Payload
    → List (String × c.Payload)
    → c.World
    → Type 0
Stands c entries m e w = (c.stored w ≡ m) × (entries w ≡ e)

-- The calls that a script makes, and EVAL. Redis runs a script with no other command between, and
-- does not undo what a script did before it failed. An EVAL that raises may not have run the
-- script, may have run it up to a failing call, or may have lost the reply of a whole run; what it
-- raises is an exception of redis-py. What EVAL gives is `none` if it has not the form of what the
-- script returns.
pub record Scripting (c : RedisStreamClient) : Type 1 where
  pub entries : c.World → List (String × c.Payload)
  pub call_exists : String → Action c.World ℕ
  pub call_set : String → c.Payload → Action c.World (Unit {0})
  pub call_xadd : String → c.Payload → Action c.World String
  pub eval : {A : Type 0} → Action c.World A → Action c.World (Option A)
  pub entries-clock : (w : c.World) → entries (c.clock w).1 ≡ entries w
  pub exists_law :
      (k : String) (m : Keys c.Payload) (e : List (String × c.Payload))
      → Triple
          (Stands c entries m e)
          (call_exists k)
          (λ n w.
            (((n ≡ 1) × (is_some (m k) ≡ true)) ⊎ ((n ≡ 0) × (m k ≡ none)))
            × Stands c entries m e w)
          (λ _. Stands c entries m e)
  pub call_set_law :
      (k : String) (v : c.Payload) (m : Keys c.Payload) (e : List (String × c.Payload))
      → Triple
          (Stands c entries m e)
          (call_set k v)
          (λ _. Stands c entries (put k v m) e)
          (λ _. Stands c entries m e)
  pub xadd_law :
      (v : c.Payload) (m : Keys c.Payload) (e : List (String × c.Payload))
      → Triple
          (Stands c entries m e)
          (call_xadd c.stream_name v)
          (λ id. Stands c entries m (e ++ ((id, v) ∷ [])))
          (λ _. Stands c entries m e)
  pub eval_law :
      {A : Type 0} {P : c.World → Type 0} {Q : A → c.World → Type 0} {E : Error → c.World → Type 0}
      {script : Action c.World A}
      → Triple P script Q E
      → Triple P
          (eval script)
          (λ reply w. (a : A) × (reply ≡ some a) × Q a w)
          (λ x w. (is_duplicate x ≡ false) × (P w ⊎ (((y : Error) × E y w) ⊎ ((a : A) × Q a w))))

module _ (c : RedisStreamClient) (s : Scripting c) where
  -- `_ATOMIC_SUBMIT_SCRIPT`: a number that says whether the execution is new, and the message's id.
  unfoldable pub submit_script :
      String → String → c.Payload → c.Payload → Action c.World (ℕ × String)
  submit_script state_key stream state command = do
    found ← s.call_exists state_key
    if found == 1 then pure (0, "") else (do
      s.call_set state_key state
      message_id ← s.call_xadd stream command
      pure (1, message_id))

  -- What follows the `try` block; `none` is no list or tuple of two.
  unfoldable pub read_result : String → Option (ℕ × String) → Action c.World String
  read_result execution_id none =
      raise (infrastructure_error "Redis returned an invalid submit result")
  read_result execution_id (some (flag, message_id)) =
      if flag == 1 then pure message_id else raise (duplicate_execution_error execution_id)

  unfoldable pub submit : String → c.Payload → String → c.Payload → Action c.World String
  unfolding submit_script read_result wrap
  submit state_key state execution_id command = do
    result ←
        s.eval (submit_script state_key c.stream_name state command)
        except wrap "Atomic execution submission failed"
    read_result execution_id result

  module _ (k : String) (state command : c.Payload) (m : Keys c.Payload)
      (e : List (String × c.Payload)) where
    -- The execution was not there; now its state is, and its command is the last of the stream.
    abbrev pub Added : String → c.World → Type 0
    Added id w = (m k ≡ none) × Stands c s.entries (put k state m) (e ++ ((id, command) ∷ [])) w

    abbrev pub Refused : c.World → Type 0
    Refused w = (is_some (m k) ≡ true) × Stands c s.entries m e w

    -- After a failure: nothing was done, the state alone was stored, or all was done.
    abbrev pub Left : c.World → Type 0
    Left w =
        Stands c s.entries m e w
        ⊎ ((m k ≡ none) × (Stands c s.entries (put k state m) e w ⊎ ((id : String) × Added id w)))

    abbrev Ran : ℕ × String → c.World → Type 0
    Ran (n, id) w = ((n ≡ 0) × Refused w) ⊎ ((n ≡ 1) × Added id w)

    abbrev Broke : c.World → Type 0
    Broke w = Stands c s.entries m e w ⊎ ((m k ≡ none) × Stands c s.entries (put k state m) e w)

    adds :
        m k ≡ none
        → Triple
            (Stands c s.entries m e)
            (do
              s.call_set k state
              message_id ← s.call_xadd c.stream_name command
              pure (1, message_id))
            Ran
            (λ _. Broke)
    adds absent =
        Triple-bind
          (Triple-weaken (s.call_set_law k state m e) (λ w p. p) (λ _ w p. p) (λ x w p. inl p))
          (λ _.
            Triple-bind
              (Triple-weaken (s.xadd_law command (put k state m) e) (λ w p. p) (λ _ w p. p)
                (λ x w p. inr (absent, p)))
              (λ id. Triple-pure (1, id) (λ w p. inr (refl, (absent, p)))))

    script-Ran :
        Triple
          (Stands c s.entries m e)
          (submit_script k c.stream_name state command)
          Ran
          (λ _. Broke)
    unfolding submit_script
    script-Ran =
        Triple-bind (Triple-weaken (s.exists_law k m e) (λ w p. p) (λ n w p. p) (λ x w p. inl p))
          (λ n. record {
            at = λ w (why, st). elim why [
              | inl (one, p) ↦ rw one (inl (refl, (p, st)))
              | inr (zero, p) ↦ rw zero ((adds p).at w st)
            ];
          })

    leftover :
        (w : c.World)
        → Stands c s.entries m e w ⊎ (((y : Error) × Broke w) ⊎ ((r : ℕ × String) × Ran r w))
        → Left w
    leftover w (inl p) = inl p
    leftover w (inr (inl (_, inl p))) = inl p
    leftover w (inr (inl (_, inr (absent, p)))) = inr (absent, inl p)
    leftover w (inr (inr (_, inl (_, (_, p))))) = inl p
    leftover w (inr (inr ((n, id), inr (_, p)))) = inr (p.0, inr (id, p))

    -- What `submit` raises, and what it then leaves.
    abbrev pub Failed : String → Error → c.World → Type 0
    Failed execution_id x w =
        ((x ≡ duplicate_execution_error execution_id) × Refused w)
        ⊎ ((is_duplicate x ≡ false) × Left w)

    abbrev Replied : Option (ℕ × String) → c.World → Type 0
    Replied reply w = (r : ℕ × String) × (reply ≡ some r) × Ran r w

    wrap-Failed :
        (execution_id : String) (x : Error)
        → Triple {A = Option (ℕ × String)}
            (λ w.
              (is_duplicate x ≡ false)
              × (Stands c s.entries m e w
                  ⊎ (((y : Error) × Broke w) ⊎ ((r : ℕ × String) × Ran r w))))
            (wrap "Atomic execution submission failed" x)
            Replied
            (Failed execution_id)
    unfolding wrap
    wrap-Failed id (redis_error t) = Triple-raise _ (λ w p. inr (refl, leftover w p.1))
    wrap-Failed id (response_error t) = Triple-raise _ (λ w p. inr (refl, leftover w p.1))
    wrap-Failed id (duplicate_execution_error i) = Triple-raise _ (λ w p. cc (p.0))
    wrap-Failed id x = Triple-raise x (λ w p. inr (p.0, leftover w p.1))

    read-Failed :
        (execution_id : String) (reply : Option (ℕ × String))
        → Triple (Replied reply) (read_result execution_id reply) Added (Failed execution_id)
    unfolding read_result
    read-Failed execution_id reply = record {
      at = λ w ((n, id), e, p). elim p [
        | inl (zero, refused) ↦ rw (e, zero) (inl (refl, refused))
        | inr (one, added) ↦ rw (e, one) added
      ];
    }

    pub submit-Triple :
        (execution_id : String)
        → Triple
            (Stands c s.entries m e)
            (submit k state execution_id command)
            Added
            (Failed execution_id)
    unfolding submit
    submit-Triple execution_id =
        Triple-bind (Triple-except (s.eval_law script-Ran) (wrap-Failed execution_id))
          (read-Failed execution_id)
