-- ===== src/Tests/Peers.antt =====
-- Replicas by their pods (src/promch/peering.py); the digests are those of `hashlib`.
use prometheus_ch_exporter.Prelude.{◌≡◌, refl, true, false, some, []}
use prometheus_ch_exporter.Prelude.Text.{codes}
use prometheus_ch_exporter.Config.{OperatorConfig, defaults}
use prometheus_ch_exporter.Peering.{PeeringSettings, priority_from_pod_name, configure_peering}
use prometheus_ch_exporter.Peering.Sha1.{sha1}

empty_digest : sha1 [] ≡ 1245845410931227995499360226027473197403882391305
unfolding sha1
empty_digest = refl

short_digest : sha1 (codes "abc") ≡ 968236873715988614170569073515315707566766479517
unfolding sha1
short_digest = refl

-- A text of sixty characters takes two blocks.
long_digest :
    sha1 (codes "xxxxxxxxxxxxxxxxxxxxxxxxxxxxxxxxxxxxxxxxxxxxxxxxxxxxxxxxxxxx")
    ≡ 38866268089201620010868857089888447575677003277
unfolding sha1
long_digest = refl

pod_priority : priority_from_pod_name "prometheus-ch-exporter-0" ≡ 1346675293
unfolding priority_from_pod_name
pod_priority = refl

abbrev with_peers : OperatorConfig
with_peers = record defaults { peering_enabled = true }

abbrev kopf_settings : PeeringSettings
kopf_settings = record {
  standalone = true;
  mandatory = true;
  name = "default";
  lifetime = 60;
  priority = 0;
}

standby :
    configure_peering kopf_settings with_peers (some "prometheus-ch-exporter-0") "node" ≡ record {
      standalone = false;
      mandatory = true;
      name = "prometheus-ch-exporter";
      lifetime = 60;
      priority = 1346675293;
    }
unfolding configure_peering
standby = refl
