-- ===== src/Peering/Configured.antt =====
-- The settings that src/promch/peering.py makes, with peering and without.
use prometheus_ch_exporter.Prelude.{
  ◌/◌, ◌^◌, ◌<◌, String, ◌≡◌, refl, true, false, Option, arith, Bool-cases, inl, inr,
}
use prometheus_ch_exporter.Config.{OperatorConfig}
use prometheus_ch_exporter.Peering.{
  PeeringSettings, priority_from_pod_name, current_pod_name, configure_peering,
}

priority_bound : (name : String) → priority_from_pod_name name < 2 ^ 31
unfolding priority_from_pod_name
priority_bound name = omega arith

-- With peering, a replica stands by for its peers under the configured name, with a priority below
-- 2^31 that its pod's name alone decides; without, it is alone, and all else is as it was.
pub data IsConfigured (s s' : PeeringSettings) (config : OperatorConfig) (pod : String)
    : Type 0 where
  peers :
      config.peering_enabled ≡ true
      → s'.standalone ≡ false
      → s'.mandatory ≡ true
      → s'.name ≡ config.peering_name
      → s'.lifetime ≡ config.peering_lifetime / 1000000
      → s'.priority ≡ priority_from_pod_name pod
      → s'.priority < 2 ^ 31
      → IsConfigured s s' config pod
  alone :
      config.peering_enabled ≡ false
      → s' ≡ record s { standalone = true }
      → IsConfigured s s' config pod

pub configure_peering-IsConfigured :
    (s : PeeringSettings) (config : OperatorConfig) (pod_name : Option String) (hostname : String)
    → IsConfigured s
        (configure_peering s config pod_name hostname)
        config
        (current_pod_name pod_name hostname)
unfolding configure_peering
configure_peering-IsConfigured s config pod_name hostname =
    elim (Bool-cases config.peering_enabled) [
      | inl enabled ↦
          let bound = priority_bound (current_pod_name pod_name hostname) in
          rw enabled (peers refl refl refl refl refl refl bound)
      | inr disabled ↦ rw disabled (alone refl refl)
    ]
