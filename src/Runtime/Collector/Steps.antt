-- ===== src/Runtime/Collector/Steps.antt =====
-- The steps of a collector over a list of messages.
use executor_service.Common.{◌≡◌, refl, false, String, List, ◌∷◌}
use executor_service.Action.{Outcome, ok, raised}
use executor_service.Schemas.Value.{Value, Fields}
use executor_service.Runtime.Collector.{
  JupyterMessageCollector, is_related_message, collect, collect_all,
}

module _ (str : Value → String) where
  pub collect_unrelated :
      (message : Fields) (c : JupyterMessageCollector)
      → is_related_message c.request_msg_id message ≡ false
      → collect str message c ≡ ok c
  unfolding collect
  collect_unrelated message c e = rw e

  pub collect_all-cons :
      (message : Fields) (messages : List Fields) (c c' : JupyterMessageCollector)
      → collect_all str (message ∷ messages) c ≡ ok c'
      → (d : JupyterMessageCollector) × (collect str message c ≡ ok d)
        × (collect_all str messages d ≡ ok c')
  unfolding collect_all
  collect_all-cons message messages c c' h = go (collect str message c) refl
    where
      go :
          (r : Outcome JupyterMessageCollector)
          → collect str message c ≡ r
          → (d : JupyterMessageCollector) × (collect str message c ≡ ok d)
            × (collect_all str messages d ≡ ok c')
      go (ok d) e = (d, e, rw (e, collect_all) at h)
      go (raised x) e = cc (rw (e, collect_all) at h)

  pub collect_all-step :
      (message : Fields) (messages : List Fields) (c d c' : JupyterMessageCollector)
      → collect str message c ≡ ok d
      → collect_all str messages d ≡ ok c'
      → collect_all str (message ∷ messages) c ≡ ok c'
  unfolding collect_all
  collect_all-step message messages c d c' e h = rw (e, collect_all) h
