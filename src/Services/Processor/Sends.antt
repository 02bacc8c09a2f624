-- ===== src/Services/Processor/Sends.antt =====
-- A message that is processed any number of times, and the steps that it sends.
use executor_service.Common.{
  ℕ, ◌≡◌, refl, sym, ap, subst, ◌∙◌, inl, inr, Bool, true, false, String, List, ◌++◌, str_eq,
}
use executor_service.Errors.{kernel_not_found_error}
use executor_service.Action.{Outcome, ok, raised}
use executor_service.Action.Triple.{
  Triple, Keeps, Post, Triple-raise, Triple-if, Triple-bind, Triple-weaken, Triple-attempt,
  Triple-both,
}
use executor_service.Schemas.Value.{Fields}
use executor_service.Schemas.Command.{ExecutionCommand}
use executor_service.Schemas.State.{ExecutionStatus, ExecutionState, is_terminal_status}
use executor_service.Schemas.Callback.{ExecutionCallback, text_or}
use executor_service.Platform.{Keys}
use executor_service.Repository.{RedisExecutionRepository}
use executor_service.Repository.Store.{At, Holds, Now, At-mono, frame, get_required-At}
use executor_service.Repository.Methods.{mark_infrastructure_failed-Triple}
use executor_service.Repository.Aside.{get_required-Keeps, mark_infrastructure_failed-Keeps}
use executor_service.Clients.Jupyter.Keeps.{get_kernel-keeps, get_kernel-keeps_of}
use executor_service.Services.Execution.Progress.{IsSubmitted, Settled}
use executor_service.Services.Execution.Recorder.{is_queued, IsTaken, InOrder, Recorder}
use executor_service.Services.Execution.Sending.{Sent}
use executor_service.Services.Execution.Sends.{Once, execute-Once}
use executor_service.Services.Execution.Settles.{execute-Triple}
use executor_service.Services.Callback.{deliver}
use executor_service.Services.Callback.Trying.{SameExecution}
use executor_service.Services.Callback.Concludes.{deliver-Triple, Reported}
use executor_service.Services.Callback.Keeps.{deliver-Keeps}
use executor_service.Services.Processor.Concludes.{Verdict-terminal}
use executor_service.Services.Processor.Cases.{choose-queued, choose-running, choose-terminal}
use executor_service.Services.Processor.{
  ExecutionProcessor, reconcile, recover_at, recover_running, choose, execute,
}

-- A record of the requests that were sent, which neither the kernel server's REST calls, nor the
-- agent, nor a pause adds to.
pub record ProcessorRecorder (r : RedisExecutionRepository) (p : ExecutionProcessor r)
    : Type 1 where
  pub recorder : Recorder r p.execution_service
  pub open recorder use *
  pub get_kernel_aside :
      (path : String) (l : List Entry) → Keeps (λ w. sent w ≡ l) (p.jupyter_client.http_get path)
  pub post_aside :
      (url : String) (body : ExecutionCallback) (key : String) (l : List Entry)
      → Keeps (λ w. sent w ≡ l) (p.callback_service.client.http_post url body key)
  pub sleep_aside :
      (duration : ℕ) (l : List Entry) → Keeps (λ w. sent w ≡ l) (p.callback_service.sleep duration)

module _ (repository : RedisExecutionRepository) (processor : ExecutionProcessor repository)
    (recorder : ProcessorRecorder repository processor) (command : ExecutionCommand)
    (base : Keys repository.Payload) where
  open processor use {execution_service, callback_service, jupyter_client}
  open recorder use {Entry, IsRequest, sent}

  abbrev id : String
  id = command.execution_id

  abbrev Taken : repository.World → Type 0
  Taken = Holds repository id base IsTaken

  reconcile-Taken :
      (o : Outcome Fields)
      → Triple Taken
          (reconcile repository processor id o)
          (Now repository id base IsTaken)
          (λ _. Taken)
  unfolding reconcile
  reconcile-Taken (raised (kernel_not_found_error k)) =
      mark_infrastructure_failed-Triple repository id base (λ s p. p) (λ s p. p) _ _
        (λ s now p. refl)
  reconcile-Taken (raised _) = Triple-raise _ (λ w p. p)
  reconcile-Taken (ok v) = Triple-raise _ (λ w p. p)

  reconcile-Keeps :
      (l : List Entry) (o : Outcome Fields)
      → Keeps (λ w. sent w ≡ l) (reconcile repository processor id o)
  unfolding reconcile
  reconcile-Keeps l (raised (kernel_not_found_error k)) =
      mark_infrastructure_failed-Keeps repository (recorder.aside l) id _ _
  reconcile-Keeps l (raised _) = Triple-raise _ (λ w p. p)
  reconcile-Keeps l (ok v) = Triple-raise _ (λ w p. p)

  recover_running-Taken :
      Triple Taken
        (recover_running repository processor id)
        (Now repository id base IsTaken)
        (λ _. Taken)
  unfolding recover_running recover_at
  recover_running-Taken = Triple-bind (get_required-At repository id base IsTaken) (λ s.
      Triple-if (str_eq (text_or s.kernel_id "") "") _ _ (λ _. Triple-raise _ (λ w a. (s, a)))
        (λ _.
          Triple-weaken
            (Triple-attempt (reconcile repository processor id)
              (frame repository (λ m. (t : ExecutionState) × At repository id base IsTaken t m)
                (get_kernel-keeps repository jupyter_client (text_or s.kernel_id "")))
              (λ v. reconcile-Taken (ok v)) (λ x. reconcile-Taken (raised x)))
            (λ w a. (s, a)) (λ t w a. a) (λ x w h. h)))

  recover_running-Keeps :
      (l : List Entry) → Keeps (λ w. sent w ≡ l) (recover_running repository processor id)
  unfolding recover_running recover_at
  recover_running-Keeps l = Triple-bind (get_required-Keeps repository (recorder.aside l) id) (λ s.
      Triple-if (str_eq (text_or s.kernel_id "") "") _ _ (λ _. Triple-raise _ (λ w p. p))
        (λ _.
          Triple-attempt (reconcile repository processor id)
            (get_kernel-keeps_of repository jupyter_client (λ w. sent w ≡ l)
              (text_or s.kernel_id "") (λ path. recorder.get_kernel_aside path l))
            (λ v. reconcile-Keeps l (ok v)) (λ x. reconcile-Keeps l (raised x))))

  -- A state that is taken up stays so.
  SameExecution-IsTaken : (a b : ExecutionState) → IsTaken a → SameExecution a b → IsTaken b
  SameExecution-IsTaken a b h e = ap (λ (x : ExecutionState). is_queued x.status) e ∙ h

  Reported-IsTaken :
      (a b : ExecutionState) → IsTaken a → Reported repository callback_service a base b → IsTaken b
  Reported-IsTaken a b h (inl (e, d)) = rw e h
  Reported-IsTaken a b h (inr (t, c)) = SameExecution-IsTaken a b h c.same

  deliver-Taken :
      (s : ExecutionState)
      → Triple
          (Now repository id base IsTaken s)
          (deliver repository callback_service s)
          (λ _. Taken)
          (λ _. Taken)
  deliver-Taken s = record {
    at = λ w a.
        subst
          (λ i.
            Post (λ (_ : ExecutionState). Holds repository i base IsTaken)
              (λ _. Holds repository i base IsTaken) (deliver repository callback_service s w))
          a.own
          ((Triple-weaken (deliver-Triple repository callback_service s base) (λ w h. h)
              (λ t w b. (t, At-mono repository (Reported-IsTaken s t a.holds) b))
              (λ x w (t, b). (t, At-mono repository (SameExecution-IsTaken s t a.holds) b))).at
            w
            (subst (λ i. At repository i base (λ t. t ≡ s) s (repository.stored w)) (sym a.own)
              (At-mono repository (λ _. refl) a)));
  }

  -- The state that goes on to the callback, with the steps that were sent up to then.
  abbrev Chosen : List Entry → ExecutionState → repository.World → Type 0
  Chosen l s w =
      Now repository id base IsTaken s w
      × ((front : List Entry) × (sent w ≡ l ++ front) × InOrder IsRequest front command.steps)

  deliver-Once :
      (l : List Entry) (s : ExecutionState)
      → Triple
          (Chosen l s)
          (deliver repository callback_service s)
          (λ _. Sent repository execution_service recorder.recorder command base l command.steps)
          (λ _. Sent repository execution_service recorder.recorder command base l command.steps)
  deliver-Once l s = record {
    at = λ w (a, (front, e, o)).
        (Triple-weaken
            (Triple-both (deliver-Taken s) (
              deliver-Keeps repository callback_service (recorder.aside (l ++ front))
                (λ url body key. recorder.post_aside url body key (l ++ front))
                (λ d. recorder.sleep_aside d (l ++ front)) s))
            (λ w p. p) (λ t w (h, e). (h, (front, e, o))) (λ x w (h, e). (h, (front, e, o)))).at
          w (a, e);
  }

  Settled-IsTaken : (stop : Bool) (s : ExecutionState) → Settled stop s → IsTaken s
  Settled-IsTaken stop s h = go s.status refl (Verdict-terminal stop s.status s h.verdict)
    where
      go : (x : ExecutionStatus) → s.status ≡ x → is_terminal_status x ≡ true → IsTaken s
      go ExecutionStatus.queued e t = cc
      go ExecutionStatus.running e t = rw e refl
      go ExecutionStatus.succeeded e t = rw e refl
      go ExecutionStatus.failed e t = rw e refl

  abbrev After : List Entry → repository.World → Type 0
  After l = Sent repository execution_service recorder.recorder command base l command.steps

  abbrev Before : List Entry → repository.World → Type 0
  Before l w = Holds repository id base (IsSubmitted command.steps) w × (sent w ≡ l)

  abbrev pub Sends : List Entry → repository.World → Type 0
  Sends l = Once repository execution_service recorder.recorder command base l

  -- Once taken up, nothing more is sent.
  IsTaken-choose :
      (l front : List Entry)
      → InOrder IsRequest front command.steps
      → (s : ExecutionState)
      → Triple
          (λ w. Now repository id base IsTaken s w × (sent w ≡ l ++ front))
          (choose repository processor command s)
          (Chosen l)
          (λ _. After l)
  IsTaken-choose l front o s = record { at = λ w (a, e). go w a e s.status refl }
    where
      go :
          (w : repository.World)
          → Now repository id base IsTaken s w
          → sent w ≡ l ++ front
          → (x : ExecutionStatus) → s.status ≡ x
          → Post (Chosen l) (λ _. After l) (choose repository processor command s w)
      go w a e ExecutionStatus.queued h = let no : true ≡ false = rw h at (a.holds) in cc
      go w a e ExecutionStatus.running h =
          rw (choose-running repository processor command s h, a.own)
            ((Triple-weaken (Triple-both recover_running-Taken (recover_running-Keeps (l ++ front)))
                (λ w p. p) (λ t w (b, e). (b, (front, e, o))) (λ x w (h, e). (h, (front, e, o)))).at
              w ((s, a), e))
      go w a e ExecutionStatus.succeeded h =
          rw (choose-terminal repository processor command s (rw h)) (a, (front, e, o))
      go w a e ExecutionStatus.failed h =
          rw (choose-terminal repository processor command s (rw h)) (a, (front, e, o))

  IsSubmitted-choose :
      (l : List Entry) (s : ExecutionState)
      → Triple
          (λ w. Now repository id base (IsSubmitted command.steps) s w × (sent w ≡ l))
          (choose repository processor command s)
          (Chosen l)
          (λ _. Sends l)
  IsSubmitted-choose l s = record {
    at = λ w (a, e). rw (choose-queued repository processor command s a.holds.status) (
        (Triple-weaken
            (Triple-both (execute-Triple repository execution_service command base)
              (execute-Once repository execution_service recorder.recorder command base l))
            (λ w p. p)
            (λ t w (b, h). (At-mono repository (Settled-IsTaken command.stop_on_error t) b, h.1))
            (λ x w (_, h). h)).at
          w ((s, a), ((s, a), e)));
  }

  execute-submitted :
      (l : List Entry)
      → Triple (Before l) (execute repository processor command) (λ _. Sends l) (λ _. Sends l)
  unfolding execute
  execute-submitted l =
      Triple-bind
        (Triple-weaken
          (Triple-both (get_required-At repository id base (IsSubmitted command.steps))
            (get_required-Keeps repository (recorder.aside l) id))
          (λ w p. p) (λ s w p. p) (λ x w p. inl p))
        (λ s.
          Triple-bind (IsSubmitted-choose l s)
            (λ t. Triple-weaken (deliver-Once l t) (λ w p. p) (λ u w p. inr p) (λ x w p. inr p)))

  execute-IsTaken :
      (l front : List Entry)
      → InOrder IsRequest front command.steps
      → Triple
          (λ w. Taken w × (sent w ≡ l ++ front))
          (execute repository processor command)
          (λ _. After l)
          (λ _. After l)
  unfolding execute
  execute-IsTaken l front o =
      Triple-bind
        (Triple-weaken
          (Triple-both (get_required-At repository id base IsTaken)
            (get_required-Keeps repository (recorder.aside (l ++ front)) id))
          (λ w p. p) (λ s w p. p) (λ x w (h, e). (h, (front, e, o))))
        (λ s. Triple-bind (IsTaken-choose l front o s) (deliver-Once l))

  -- However it ends, the processor sends each step at most once, and none twice over several times.
  pub execute-Sends : (l : List Entry) → Keeps (Sends l) (execute repository processor command)
  execute-Sends l = record {
    at = λ w p. elim p [
      | inl h ↦ (execute-submitted l).at w h
      | inr (h, (front, e, o)) ↦
          (Triple-weaken (execute-IsTaken l front o) (λ w p. p) (λ s w p. inr p)
              (λ x w p. inr p)).at
            w (h, e)
    ];
  }
