-- ===== src/DeepCopy/Views/Connection.antt =====
-- The blocks on the connection to the server: what they show in memory, and the addresses that are
-- reached from them.
use kubeturbo_deploy.Prelude.{ℕ, none, some, List, ◌++◌}
use kubeturbo_deploy.Types.Blocks.{
  KubeturboRestApiConfig, KubeturboSdkProtocolConfig, KubeturboServerMeta, KubeturboTargetConfig,
}
use kubeturbo_deploy.Heap.{Store, refers, shows}
use kubeturbo_deploy.DeepCopy.Layout.{
  KubeturboRestApiConfigLayout, KubeturboSdkProtocolConfigLayout, KubeturboServerMetaLayout,
  KubeturboTargetConfigLayout,
}
use kubeturbo_deploy.DeepCopy.Cells.{Cell}
use kubeturbo_deploy.DeepCopy.Cells.Instances.{stored_text, stored_number, stored_flag}

abbrev pub kubeturbo_server_meta_view : Store Cell → KubeturboServerMetaLayout → KubeturboServerMeta
kubeturbo_server_meta_view σ m = record {
  version = shows some none σ m.version;
  turbo_server = m.turbo_server;
  proxy = shows some none σ m.proxy;
}

abbrev pub kubeturbo_server_meta_reach : Store Cell → KubeturboServerMetaLayout → List ℕ
kubeturbo_server_meta_reach σ m = refers m.version ++ refers m.proxy

abbrev pub kubeturbo_rest_api_config_view :
    Store Cell → KubeturboRestApiConfigLayout → KubeturboRestApiConfig
kubeturbo_rest_api_config_view σ m = record {
  turbonomic_credentials_secret_name = m.turbonomic_credentials_secret_name;
  ops_manager_user_name = shows some none σ m.ops_manager_user_name;
  ops_manager_password = shows some none σ m.ops_manager_password;
}

abbrev pub kubeturbo_rest_api_config_reach : Store Cell → KubeturboRestApiConfigLayout → List ℕ
kubeturbo_rest_api_config_reach σ m =
    refers m.ops_manager_user_name ++ refers m.ops_manager_password

abbrev pub kubeturbo_sdk_protocol_config_view :
    Store Cell → KubeturboSdkProtocolConfigLayout → KubeturboSdkProtocolConfig
kubeturbo_sdk_protocol_config_view σ m = record {
  registration_timeout_sec = shows some none σ m.registration_timeout_sec;
  restart_on_registration_timeout = shows some none σ m.restart_on_registration_timeout;
}

abbrev pub kubeturbo_sdk_protocol_config_reach :
    Store Cell → KubeturboSdkProtocolConfigLayout → List ℕ
kubeturbo_sdk_protocol_config_reach σ m =
    refers m.registration_timeout_sec ++ refers m.restart_on_registration_timeout

abbrev pub kubeturbo_target_config_view :
    Store Cell → KubeturboTargetConfigLayout → KubeturboTargetConfig
kubeturbo_target_config_view σ m = record { target_name = shows some none σ m.target_name }

abbrev pub kubeturbo_target_config_reach : Store Cell → KubeturboTargetConfigLayout → List ℕ
kubeturbo_target_config_reach σ m = refers m.target_name
