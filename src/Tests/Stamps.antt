-- ===== src/Tests/Stamps.antt =====
-- A request on a connection that speaks the v1 protocol, with the time in its header.
use executor_service.Common.{◌≡◌, refl, true, []}
use executor_service.Action.{pure}
use executor_service.Action.Triple.{Triple, Triple-pure}
use executor_service.Schemas.Value.{
  str_value, dict_value, datetime_value, Fields, empty, field, get_or,
}
use executor_service.Runtime.Runner.{Channels, JupyterSession, run}
use executor_service.Runtime.Runner.Wire.{Wire}
use executor_service.Runtime.Runner.Fails.{Refuses, has_time, fields_have_time, run-Fails}
use executor_service.Tests.Memory.{repository, jupyter}
use executor_service.Tests.Messages.{request}
use executor_service.Tests.Executions.{step}
use executor_service.Tests.Runners.{channels, wire}

abbrev stamped : Fields
stamped =
    field "header"
      (dict_value (
        field "msg_id" (str_value request)
          (field "date" (datetime_value "2026-01-01 00:00:00+00:00") empty)))
      empty

abbrev v1_channels : Channels repository
v1_channels = record channels {
  uses_v1 = λ _. true;
  msg = λ _ _. pure stamped;
  msg_law = λ _ _ m. Triple-pure _ (λ w e. e);
}

abbrev v1_session : JupyterSession repository jupyter v1_channels
v1_session = record {
  session_info = record {
    session_id = "session-1";
    kernel_id = "kernel-1";
    target = "http://jupyter";
  };
  websocket = tt;
}

abbrev v1_wire : Wire repository jupyter v1_channels
v1_wire = record {
  transmitted = λ w. w.transmitted;
  transmit_adds = wire.transmit_adds;
  recv_aside = wire.recv_aside;
  frames_in_time_aside = wire.frames_in_time_aside;
  msg_aside = λ _ _ l. Triple-pure _ (λ w e. e);
  interrupt_aside = wire.interrupt_aside;
}

refuses : Refuses repository jupyter v1_channels v1_wire
unfolding has_time fields_have_time
refuses (dict_value empty) h = cc
refuses (dict_value (field k v fields)) h = (_, refl)
refuses _ h = (_, refl)

run-Fails_example :
    Triple
      (λ w. w.transmitted ≡ [])
      (run repository jupyter v1_channels (λ _. pure tt) v1_session (step "step-1"))
      (λ _ _. ⊥)
      (λ _ w. w.transmitted ≡ [])
unfolding has_time fields_have_time get_or
run-Fails_example =
    run-Fails repository jupyter v1_channels v1_wire (λ _. pure tt) v1_session (step "step-1") []
      refl refuses (Triple-pure stamped (λ w p. (refl, refl))) (λ id. Triple-pure tt (λ w e. e))
