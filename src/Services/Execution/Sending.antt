-- ===== src/Services/Execution/Sending.antt =====
-- What the loop over the steps sends.
use executor_service.Common.{
  ◌≡◌, refl, sym, ◌∙◌, ◌⊎◌, inl, inr, Bool, true, false, String, List, [], ◌∷◌, ◌++◌, none, some,
}
use mathlib.Core.List.{append_assoc, append-nil}
use executor_service.Errors.{code_execution_error, infrastructure_error}
use executor_service.Action.{Outcome, ok, raised, Action}
use executor_service.Action.Triple.{
  Triple, Keeps, Triple-pure, Triple-raise, Triple-if, Triple-bind, Triple-weaken, Triple-attempt,
  Triple-both,
}
use executor_service.Schemas.Value.{Fields}
use executor_service.Schemas.Command.{ExecutionStep, ExecutionCommand}
use executor_service.Schemas.State.{ExecutionState}
use executor_service.Platform.{Keys}
use executor_service.Repository.{RedisExecutionRepository}
use executor_service.Repository.Store.{At, Holds, Now, get_required-At}
use executor_service.Repository.Aside.{
  get_required-Keeps, set_request_msg_id-Keeps, mark_step_running-Keeps, mark_step_succeeded-Keeps,
  mark_step_failed-Keeps, mark_succeeded-Keeps,
}
use executor_service.Repository.Methods.{
  set_request_msg_id-Triple, mark_step_running-Triple, mark_step_succeeded-Triple,
  mark_step_failed-Triple, mark_succeeded-Triple,
}
use executor_service.Services.Execution.{
  ExecutionService, request_started, settle, finish, run_steps,
}
use executor_service.Services.Execution.Recorder.{IsTaken, InOrder, InOrder-later, Recorder}

module _ (repository : RedisExecutionRepository) (service : ExecutionService repository)
    (recorder : Recorder repository service) (command : ExecutionCommand)
    (base : Keys repository.Payload) where
  open service use {runner}
  open recorder use {Entry, IsRequest, sent}

  abbrev id : String
  id = command.execution_id

  -- Taken up, with the record as it is.
  abbrev pub AtRecord : List Entry → repository.World → Type 0
  AtRecord l w = Holds repository id base IsTaken w × (sent w ≡ l)

  -- Taken up, and some of the steps sent since, in their order.
  abbrev pub Sent : List Entry → List ExecutionStep → repository.World → Type 0
  Sent l todo w =
      Holds repository id base IsTaken w
      × ((front : List Entry) × (sent w ≡ l ++ front) × InOrder IsRequest front todo)

  pub none_sent :
      (l : List Entry) (todo : List ExecutionStep) (w : repository.World)
      → AtRecord l w
      → Sent l todo w
  none_sent l todo w (h, e) = (h, ([], e ∙ sym (append-nil l), tt))

  skipped :
      (l : List Entry) (t : ExecutionStep) (todo : List ExecutionStep) (w : repository.World)
      → Sent l todo w
      → Sent l (t ∷ todo) w
  skipped l t todo w (h, (front, e, o)) = (h, (front, e, InOrder-later IsRequest front t todo o))

  counted :
      (l : List Entry) (t : ExecutionStep) (x : Entry) (todo : List ExecutionStep)
      (w : repository.World)
      → IsRequest t x
      → Sent (l ++ (x ∷ [])) todo w
      → Sent l (t ∷ todo) w
  counted l t x todo w r (h, (front, e, o)) =
      (h, (x ∷ front, e ∙ append_assoc l (x ∷ []) front, inl (r, o)))

  -- A method that keeps the execution taken up and the record as it is.
  pub keeps :
      {l : List Entry} {m : Action repository.World ExecutionState}
      → Triple
          (Holds repository id base IsTaken)
          m
          (Now repository id base IsTaken)
          (λ _. Holds repository id base IsTaken)
      → Keeps (λ w. sent w ≡ l) m
      → Keeps (AtRecord l) m
  keeps t k = Triple-weaken (Triple-both t k) (λ w p. p) (λ s w (a, e). ((s, a), e)) (λ x w p. p)

  module _ (todo : List ExecutionStep) (step : ExecutionStep)
      (next : Bool → Action repository.World ExecutionState)
      (continues : (b : Bool) (l : List Entry)
        → Triple (AtRecord l) (next b) (λ _. Sent l todo) (λ _. Sent l todo)) where
    settle-Sent :
        (flag : Bool) (outcome : Outcome Fields) (l : List Entry)
        → Triple
            (AtRecord l)
            (settle repository service command step next flag outcome)
            (λ _. Sent l todo)
            (λ _. Sent l todo)
    unfolding settle
    settle-Sent flag (ok result) l =
        Triple-bind
          (Triple-weaken
            (keeps
              (mark_step_succeeded-Triple repository id base (λ s p. p) (λ s p. p) step.step_id
                (some result) (λ s t now p. p))
              (mark_step_succeeded-Keeps repository (recorder.aside l) id step.step_id
                (some result)))
            (λ w p. p) (λ s w p. p) (λ x w p. none_sent l todo w p))
          (λ s. continues flag l)
    settle-Sent flag (raised (code_execution_error i t m b)) l =
        Triple-bind
          (Triple-weaken
            (keeps
              (mark_step_failed-Triple repository id base (λ s p. p) (λ s p. p) step.step_id t m b
                (λ s now p. refl))
              (mark_step_failed-Keeps repository (recorder.aside l) id step.step_id t m b))
            (λ w p. p) (λ s w p. p) (λ x w p. none_sent l todo w p))
          (λ s.
            Triple-if command.stop_on_error _ _ (λ _. Triple-pure s (λ w p. none_sent l todo w p))
              (λ _. continues true l))
    settle-Sent flag (raised (infrastructure_error message)) l =
        Triple-raise _ (λ w p. none_sent l todo w p)
    settle-Sent flag (raised _) l = Triple-raise _ (λ w p. none_sent l todo w p)

  finish-Sent :
      (flag : Bool) (l : List Entry)
      → Triple (AtRecord l) (finish repository service id flag) (λ _. Sent l []) (λ _. Sent l [])
  unfolding finish
  finish-Sent true l =
      Triple-weaken
        (keeps (get_required-At repository id base IsTaken)
          (get_required-Keeps repository (recorder.aside l) id))
        (λ w p. p) (λ s w p. none_sent l [] w p) (λ x w p. none_sent l [] w p)
  finish-Sent false l =
      Triple-weaken
        (keeps
          (mark_succeeded-Triple repository id base (λ s p. p) (λ s p. p) none (λ s now p. refl))
          (mark_succeeded-Keeps repository (recorder.aside l) id none))
        (λ w p. p) (λ s w p. none_sent l [] w p) (λ x w p. none_sent l [] w p)

  request_started-keeps :
      (message_id : String) (l : List Entry)
      → Keeps (λ w. sent w ≡ l) (request_started repository service id message_id)
  unfolding request_started
  request_started-keeps message_id l =
      Triple-bind (set_request_msg_id-Keeps repository (recorder.aside l) id message_id)
        (λ s. Triple-pure tt (λ w p. p))

  request_started-IsTaken :
      (message_id : String)
      → Keeps (Holds repository id base IsTaken) (request_started repository service id message_id)
  unfolding request_started
  request_started-IsTaken message_id =
      Triple-bind
        (set_request_msg_id-Triple repository id base (λ s p. p) (λ s p. p) message_id
          (λ s now p. p))
        (λ s. Triple-pure tt (λ w a. (s, a)))

  -- Taken up, and a request of the step on the record.
  abbrev AtRequest : List Entry → ExecutionStep → repository.World → Type 0
  AtRequest l step w =
      Holds repository id base IsTaken w
      × ((x : Entry) × IsRequest step x × (sent w ≡ l ++ (x ∷ [])))

  -- One run: the step is sent, or an exception comes before.
  run-Sent :
      (session : runner.Session) (step : ExecutionStep) (l : List Entry)
      → Triple
          (AtRecord l)
          (runner.run (request_started repository service id) session step)
          (λ _. AtRequest l step)
          (λ _ w. AtRecord l w ⊎ AtRequest l step w)
  run-Sent session step l =
      Triple-weaken
        (Triple-both
          (runner.run_law (λ m. (s : ExecutionState) × At repository id base IsTaken s m)
            (request_started repository service id) session step request_started-IsTaken)
          (recorder.run_sends (request_started repository service id) session step l
            (λ m. request_started-keeps m l)))
        (λ w p. p) (λ v w p. p)
        (λ x w (h, e). elim e [ inl same ↦ inl (h, same) | inr more ↦ inr (h, more) ])

  -- What follows a request of the step.
  sent_on :
      (session : runner.Session) (step : ExecutionStep) (todo : List ExecutionStep) (flag : Bool)
      (l : List Entry) (outcome : Outcome Fields)
      → ((b : Bool) (k : List Entry)
          → Triple
              (AtRecord k)
              (run_steps repository service command session todo b)
              (λ _. Sent k todo)
              (λ _. Sent k todo))
      → Triple
          (AtRequest l step)
          (settle repository service command step
            (run_steps repository service command session todo)
            flag
            outcome)
          (λ _. Sent l (step ∷ todo))
          (λ _. Sent l (step ∷ todo))
  sent_on session step todo flag l outcome rest = record {
    at = λ w (h, (x, r, e)).
        (Triple-weaken (settle-Sent todo step _ rest flag outcome (l ++ (x ∷ []))) (λ w p. p)
            (λ t w p. counted l step x todo w r p) (λ y w p. counted l step x todo w r p)).at
          w (h, e);
  }

  pub run_steps-Sent :
      (session : runner.Session) (todo : List ExecutionStep) (flag : Bool) (l : List Entry)
      → Triple
          (AtRecord l)
          (run_steps repository service command session todo flag)
          (λ _. Sent l todo)
          (λ _. Sent l todo)
  unfolding run_steps
  run_steps-Sent session [] flag l = finish-Sent flag l
  run_steps-Sent session (step ∷ todo) flag l =
      let rest = run_steps-Sent session todo in
      Triple-bind
        (Triple-weaken
          (keeps
            (mark_step_running-Triple repository id base (λ s p. p) (λ s p. p) step.step_id
              (λ s t now p. p))
            (mark_step_running-Keeps repository (recorder.aside l) id step.step_id))
          (λ w p. p) (λ s w p. p) (λ x w p. none_sent l (step ∷ todo) w p))
        (λ s.
          Triple-attempt
            (settle repository service command step
              (run_steps repository service command session todo) flag)
            (run-Sent session step l) (λ result. sent_on session step todo flag l (ok result) rest)
            (λ x. record {
              at = λ w p. elim p [
                | inl q ↦
                    (Triple-weaken (settle-Sent todo step _ rest flag (raised x) l) (λ w p. p)
                        (λ t w p. skipped l step todo w p) (λ x w p. skipped l step todo w p)).at
                      w q
                | inr q ↦ (sent_on session step todo flag l (raised x) rest).at w q
              ];
            }))
