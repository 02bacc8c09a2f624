-- ===== src/Tests/Wired.antt =====
-- The parts that are made of the settings, with the services in memory.
use executor_service.Common.{◌≡◌, refl, []}
use executor_service.Action.Triple.{Post}
use executor_service.Repository.Transitions.{build_initial_state}
use executor_service.Services.Callback.{deliver}
use executor_service.Main.{consumer_name}
use executor_service.Main.Wiring.{
  Packages, callback_service_of, Tried, deliver-Tried, repository_of,
}
use executor_service.Tests.Memory.{memory, jupyter, callback_service}
use executor_service.Tests.Claims.{recovery}
use executor_service.Tests.Runners.{channels}
use executor_service.Tests.Configured.{settings, with_concurrency, accepted}
use executor_service.Tests.Executions.{nothing, initial-id, world, stored-At, ended}

abbrev packages : Packages settings memory
packages = record {
  jupyter_client = jupyter;
  channels = channels;
  services = callback_service;
  recovery = recovery;
}

named : consumer_name "executor" "host" "7" "0123456789abcdef" ≡ "executor-host-7-01234567"
unfolding consumer_name
named = refl

deliver-Tried_example :
    Post
      (λ s _. Tried settings memory packages "executor" ended s)
      (λ _ _. Unit {0})
      (deliver
        (repository_of settings memory)
        (callback_service_of settings memory packages "executor")
        ended
        (world ended [] []))
unfolding build_initial_state
deliver-Tried_example =
    deliver-Tried settings memory packages "executor" (with_concurrency "4") nothing ended
      (world ended [] []) accepted (stored-At ended [] [] initial-id refl)
