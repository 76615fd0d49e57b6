-- ===== src/Peering.antt =====
-- src/promch/peering.py: which replica leads. The pod's name and its host name are arguments; the
-- settings are those of kopf that the code sets.
pub mod Sha1
pub mod Configured
use prometheus_ch_exporter.Prelude.{
  ℕ, ◌/◌, ◌%◌, ◌^◌, String, Bool, true, false, Option, none, some, text_truthy, if◌then◌else◌,
}
use prometheus_ch_exporter.Prelude.Text.{codes}
use prometheus_ch_exporter.Config.{OperatorConfig}
use prometheus_ch_exporter.Secrets.Utf8.{encode_utf8}
use prometheus_ch_exporter.Peering.Sha1.{sha1}

-- `settings.peering`
pub record PeeringSettings : Type 0 where
  pub standalone : Bool
  pub mandatory : Bool
  pub name : String
  pub lifetime : ℕ
  pub priority : ℕ

unfoldable pub priority_from_pod_name : String → ℕ
unfolding sha1 encode_utf8
priority_from_pod_name name = sha1 (encode_utf8 (codes name)) % 2 ^ 31

-- `POD_NAME`, if it is set, and the host name.
unfoldable pub current_pod_name : (pod_name : Option String) (hostname : String) → String
current_pod_name none hostname = hostname
current_pod_name (some name) hostname = if text_truthy name then name else hostname

unfoldable pub configure_peering :
    PeeringSettings
    → OperatorConfig
    → (pod_name : Option String) (hostname : String) → PeeringSettings
unfolding priority_from_pod_name current_pod_name
configure_peering settings config pod_name hostname =
    if config.peering_enabled
    then record {
      standalone = false;
      mandatory = true;
      name = config.peering_name;
      lifetime = config.peering_lifetime / 1000000;
      priority = priority_from_pod_name (current_pod_name pod_name hostname);
    }
    else record settings { standalone = true }
