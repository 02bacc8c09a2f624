-- ===== src/Services/Execution/Sends.antt =====
-- Which steps are sent to a kernel, and in which order.
use executor_service.Common.{
  ◌≡◌, refl, ◌⊎◌, inl, inr, false, String, List, ◌++◌, Option, none, some,
}
use executor_service.Errors.{Error}
use executor_service.Action.Triple.{
  Triple, Keeps, Triple-pure, Triple-raise, Triple-bind, Triple-weaken, Triple-attempt, Triple-both,
}
use executor_service.Schemas.Command.{ExecutionCommand}
use executor_service.Schemas.State.{ExecutionState}
use executor_service.Platform.{Keys}
use executor_service.Repository.{RedisExecutionRepository}
use executor_service.Repository.Store.{At, Holds, frame, At-mono, get_required-At}
use executor_service.Repository.Aside.{get_required-Keeps, mark_running-Keeps, bind_jupyter-Keeps}
use executor_service.Repository.Methods.{mark_running-Triple, bind_jupyter-Triple}
use executor_service.Services.Execution.{
  ExecutionService, leave, within, with_session, start, proceed, execute,
}
use executor_service.Services.Execution.Progress.{IsSubmitted}
use executor_service.Services.Execution.Recorder.{IsTaken, Recorder}
use executor_service.Services.Execution.Sending.{AtRecord, Sent, none_sent, keeps, run_steps-Sent}

module _ (repository : RedisExecutionRepository) (service : ExecutionService repository)
    (recorder : Recorder repository service) (command : ExecutionCommand)
    (base : Keys repository.Payload) where
  open service use {runner}
  open recorder use {Entry, IsRequest, sent}

  abbrev id : String
  id = command.execution_id

  with_session-Sent :
      (session : runner.Session) (l : List Entry)
      → Triple
          (AtRecord repository service recorder command base l)
          (with_session repository service command session)
          (λ _. Sent repository service recorder command base l command.steps)
          (λ _. Sent repository service recorder command base l command.steps)
  unfolding with_session
  with_session-Sent session l =
      let info = runner.session_info session in
      Triple-bind
        (Triple-weaken
          (keeps repository service recorder command base
            (bind_jupyter-Triple repository id base (λ s p. p) (λ s p. p) info.target
              info.session_id info.kernel_id (λ s now p. p))
            (bind_jupyter-Keeps repository (recorder.aside l) id info.target info.session_id
              info.kernel_id))
          (λ w p. p) (λ s w p. p)
          (λ x w p. none_sent repository service recorder command base l command.steps w p))
        (λ s. run_steps-Sent repository service recorder command base session command.steps false l)

  closed :
      (session : runner.Session) (x : Option Error) (l : List Entry)
      → Keeps
          (Sent repository service recorder command base l command.steps)
          (runner.close session x)
  closed session x l = record {
    at = λ w (h, (front, e, o)).
        (Triple-weaken
            (Triple-both
              (frame repository (λ m. (s : ExecutionState) × At repository id base IsTaken s m)
                (runner.close_law session x))
              (recorder.close_aside session x (l ++ front)))
            (λ w p. p) (λ v w p. (p.0, (front, p.1, o))) (λ y w p. (p.0, (front, p.1, o)))).at
          w (h, e);
  }

  within-Sent :
      (kernel_name : String) (l : List Entry)
      → Triple
          (AtRecord repository service recorder command base l)
          (within repository service id kernel_name (with_session repository service command))
          (λ _. Sent repository service recorder command base l command.steps)
          (λ _. Sent repository service recorder command base l command.steps)
  unfolding within leave
  within-Sent kernel_name l =
      Triple-bind
        (Triple-weaken
          (Triple-both
            (frame repository (λ m. (s : ExecutionState) × At repository id base IsTaken s m)
              (runner.open_session_law id kernel_name))
            (recorder.open_aside id kernel_name l))
          (λ w p. p) (λ s w p. p)
          (λ x w p. none_sent repository service recorder command base l command.steps w p))
        (λ session.
          Triple-attempt (leave repository service session) (with_session-Sent session l)
            (λ s. Triple-bind (closed session none l) (λ _. Triple-pure s (λ w p. p)))
            (λ x. Triple-bind (closed session (some x) l) (λ _. Triple-raise x (λ w p. p))))

  -- Submitted, and nothing sent; or taken up.
  abbrev pub Once : List Entry → repository.World → Type 0
  Once l w =
      (Holds repository id base (IsSubmitted command.steps) w × (sent w ≡ l))
      ⊎ Sent repository service recorder command base l command.steps w

  abbrev Either : ExecutionState → Type 0
  Either s = IsSubmitted command.steps s ⊎ IsTaken s

  Once-Either :
      (l : List Entry) (w : repository.World)
      → Holds repository id base Either w
      → sent w ≡ l
      → Once l w
  Once-Either l w (s, a) e = elim a.holds [
    | inl h ↦ inl ((s, At-mono repository (λ _. h) a), e)
    | inr h ↦ inr (
        none_sent repository service recorder command base l command.steps w
          ((s, At-mono repository (λ _. h) a), e))
  ]

  start-Once :
      (l : List Entry)
      → Triple
          (λ w. Holds repository id base (IsSubmitted command.steps) w × (sent w ≡ l))
          (start repository service command)
          (λ _. Sent repository service recorder command base l command.steps)
          (λ _. Once l)
  unfolding start
  start-Once l =
      Triple-bind
        (Triple-weaken
          (Triple-both
            (mark_running-Triple repository id base {P = IsSubmitted command.steps} {Q = IsTaken}
              {R = Either} (λ s p. inl p) (λ s p. inr p) service.executor_id (λ s now p. refl))
            (mark_running-Keeps repository (recorder.aside l) id service.executor_id))
          (λ w p. p) (λ s w (a, e). ((s, a), e)) (λ x w (h, e). Once-Either l w h e))
        (λ s. Triple-weaken (within-Sent _ l) (λ w p. p) (λ t w p. p) (λ x w p. inr p))

  -- From a submitted execution, `execute` sends some of the steps, in order.
  pub execute-Once :
      (l : List Entry)
      → Triple
          (λ w. Holds repository id base (IsSubmitted command.steps) w × (sent w ≡ l))
          (execute repository service command)
          (λ _. Sent repository service recorder command base l command.steps)
          (λ _. Once l)
  unfolding execute proceed
  execute-Once l =
      Triple-bind
        (Triple-weaken
          (Triple-both (get_required-At repository id base (IsSubmitted command.steps))
            (get_required-Keeps repository (recorder.aside l) id))
          (λ w p. p) (λ s w p. p) (λ x w p. inl p))
        (λ s. record { at = λ w (a, e). rw (a.holds.status) ((start-Once l).at w ((s, a), e)) })
